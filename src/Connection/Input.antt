-- ===== src/Connection/Input.antt =====
-- The methods of src/connection.rs that hand received bytes to the handler.
pub mod Taking
pub mod Contiguous
pub mod Peek
pub mod Discard
pub mod Vectored
pub mod Read
use rnet.Prelude.{
  ℕ, ◌+◌, ◌-◌, Bool, true, false, ◌||◌, List, [], ◌∷◌, ◌++◌, Option, none, some, ltb, leb, ◌==◌,
  length, take, drop, min, if◌then◌else◌,
}
use rnet.Prelude.Text.{is_empty}
use rnet.Io.{IoResult, ok, err, other, Run, ret, panic, ◌>>=◌, unwrap, concat}
use rnet.Extern.Bytes.{BytesApi, in_range, slice_to}
use rnet.Extern.Streams.{StreamApi}
use rnet.Codec.{CodecApi}
use rnet.Connection.{Connection, held, in_buf_len, io_buf_len}

-- The length that a call asks for: all there is, or so much, if there is so much.
abbrev pub wanted : Option ℕ → ℕ → Option ℕ
wanted none total_len = some total_len
wanted (some n) total_len = if ltb total_len n then none else some n

module _ ⦃bytes : BytesApi⦄ ⦃streams : StreamApi⦄ ⦃codecs : CodecApi⦄ where
  open bytes use {BytesMut, contents, split_to, advance, extend_from_slice}
  open codecs use {Message, decode}

  -- A buffer in which nothing is left is dropped.
  abbrev pub unless_empty : BytesMut → Option BytesMut
  unless_empty b = if is_empty (contents b) then none else some b

  -- The three ways of `next_contiguous`: from the io buffer alone, from the in buffer alone, and
  -- across both, by copying out of the io buffer.
  contiguous_io : Connection → ℕ → Option BytesMut → Run (Option BytesMut × Connection)
  contiguous_io c actual_len none = ret (none, c)
  contiguous_io c actual_len (some io_buffer) = do
    (front, rest) ← in_range actual_len (contents io_buffer) (split_to io_buffer actual_len)
    ret (some front, record c { io_buffer = some rest })

  contiguous_both : Connection → ℕ → BytesMut → Run (Option BytesMut × Connection)
  contiguous_both c remaining in_buffer = do
    io_buffer ← unwrap c.io_buffer
    let copy_by_io = remaining - length (contents in_buffer)
    copied ← slice_to (contents io_buffer) copy_by_io
    rest ← in_range copy_by_io (contents io_buffer) (advance io_buffer copy_by_io)
    ret (
      some (extend_from_slice in_buffer copied),
      record c { in_buffer = none; io_buffer = some rest },
    )

  contiguous_in : Connection → ℕ → Option BytesMut → Run (Option BytesMut × Connection)
  contiguous_in c remaining none = ret (none, c)
  contiguous_in c remaining (some in_buffer) =
      if leb remaining (length (contents in_buffer))
      then (do
        (front, rest) ← in_range remaining (contents in_buffer) (split_to in_buffer remaining)
        ret (some front, record c { in_buffer = some rest }))
      else contiguous_both c remaining in_buffer

  contiguous_len : Connection → Option ℕ → Run (Option BytesMut × Connection)
  contiguous_len c none = ret (none, c)
  contiguous_len c (some actual_len) =
      if in_buf_len c == 0
      then contiguous_io c actual_len c.io_buffer
      else contiguous_in c actual_len c.in_buffer

  unfoldable pub next_contiguous : Connection → Option ℕ → Run (Option BytesMut × Connection)
  unfolding contiguous_len contiguous_io contiguous_both contiguous_in
  next_contiguous c n = contiguous_len c (wanted n (in_buf_len c + io_buf_len c))

  -- `next_vectored`: what comes out of the in buffer, then what is missing out of the io buffer.
  vectored_in : Connection → ℕ → Option BytesMut → Run (List BytesMut × ℕ × Connection)
  vectored_in c remaining none = ret ([], remaining, c)
  vectored_in c remaining (some in_buffer) =
      let len = min remaining (length (contents in_buffer)) in
      if ltb 0 len
      then (do
        (front, rest) ← in_range len (contents in_buffer) (split_to in_buffer len)
        ret (front ∷ [], remaining - len, record c { in_buffer = unless_empty rest }))
      else ret ([], remaining, record c { in_buffer = unless_empty in_buffer })

  vectored_io :
      Connection → ℕ → List BytesMut → Option BytesMut → Run (Option (List BytesMut) × Connection)
  vectored_io c remaining result none = ret (some result, c)
  vectored_io c remaining result (some io_buffer) =
      if ltb 0 remaining
      then (do
        (front, rest) ← in_range remaining (contents io_buffer) (split_to io_buffer remaining)
        ret (some (result ++ (front ∷ [])), record c { io_buffer = some rest }))
      else ret (some result, c)

  vectored_len : Connection → Option ℕ → Run (Option (List BytesMut) × Connection)
  vectored_len c none = ret (none, c)
  vectored_len c (some actual_len) = do
    (result, remaining, c') ← vectored_in c actual_len c.in_buffer
    vectored_io c' remaining result c'.io_buffer

  -- Asking for 0 bytes gives nothing here.
  abbrev pub wanted_some : Option ℕ → ℕ → Option ℕ
  wanted_some none total_len = some total_len
  wanted_some (some n) total_len = if ltb total_len n || leb n 0 then none else some n

  unfoldable pub next_vectored : Connection → Option ℕ → Run (Option (List BytesMut) × Connection)
  unfolding vectored_len vectored_in vectored_io
  next_vectored c n = vectored_len c (wanted_some n (in_buf_len c + io_buf_len c))

  -- `PeekData`: a slice of one buffer, or a copy out of both.
  pub data PeekData : Type 0 where
    raw : List ℕ → PeekData
    bytes_mut : BytesMut → PeekData

  -- `Deref`.
  abbrev pub deref : PeekData → List ℕ
  deref (raw s) = s
  deref (bytes_mut b) = contents b

  peek_io : ℕ → Option BytesMut → Run (Option PeekData)
  peek_io actual_len none = ret none
  peek_io actual_len (some io_buffer) = do
    front ← slice_to (contents io_buffer) actual_len
    ret (some (raw front))

  peek_both : Connection → ℕ → BytesMut → Run (Option PeekData)
  peek_both c remaining in_buffer = do
    let copy_by_io = remaining - length (contents in_buffer)
    io_buffer ← unwrap c.io_buffer
    copied ← slice_to (contents io_buffer) copy_by_io
    let both = extend_from_slice (extend_from_slice bytes.new (contents in_buffer)) copied
    ret (some (bytes_mut both))

  peek_in : Connection → ℕ → Option BytesMut → Run (Option PeekData)
  peek_in c remaining none = ret none
  peek_in c remaining (some in_buffer) =
      if leb remaining (length (contents in_buffer))
      then (do front ← slice_to (contents in_buffer) remaining; ret (some (raw front)))
      else peek_both c remaining in_buffer

  peek_len : Connection → Option ℕ → Run (Option PeekData)
  peek_len c none = ret none
  peek_len c (some actual_len) =
      if in_buf_len c == 0 then peek_io actual_len c.io_buffer else peek_in c actual_len c.in_buffer

  unfoldable pub peek : Connection → Option ℕ → Run (Option PeekData)
  unfolding peek_len peek_io peek_both peek_in
  peek c n = peek_len c (wanted n (in_buf_len c + io_buf_len c))

  discard_io : Connection → ℕ → Option BytesMut → Run (Option ℕ × Connection)
  discard_io c actual_len none = ret (none, c)
  discard_io c actual_len (some io_buffer) = do
    rest ← in_range actual_len (contents io_buffer) (advance io_buffer actual_len)
    ret (some actual_len, record c { io_buffer = some rest })

  discard_both : Connection → ℕ → BytesMut → Run (Option ℕ × Connection)
  discard_both c remaining in_buffer = do
    let discard_from_io = remaining - length (contents in_buffer)
    io_buffer ← unwrap c.io_buffer
    rest ← in_range discard_from_io (contents io_buffer) (advance io_buffer discard_from_io)
    ret (some remaining, record c { in_buffer = none; io_buffer = some rest })

  discard_in : Connection → ℕ → BytesMut → Run (Option ℕ × Connection)
  discard_in c remaining in_buffer =
      if leb remaining (length (contents in_buffer))
      then (do
        rest ← in_range remaining (contents in_buffer) (advance in_buffer remaining)
        ret (some remaining, record c { in_buffer = unless_empty rest }))
      else discard_both c remaining in_buffer

  discard_len : Connection → Option ℕ → Run (Option ℕ × Connection)
  discard_len c none = ret (none, c)
  discard_len c (some actual_len) =
      if in_buf_len c == 0
      then discard_io c actual_len c.io_buffer
      else do in_buffer ← unwrap c.in_buffer; discard_in c actual_len in_buffer

  unfoldable pub discard : Connection → Option ℕ → Run (Option ℕ × Connection)
  unfolding discard_len discard_io discard_both discard_in
  discard c n = discard_len c (wanted n (in_buf_len c + io_buf_len c))

  -- `read` copies into the front of `buf`: the number of bytes, and the buffer after the call.
  read_in : Connection → ℕ → Option BytesMut → Run (List ℕ × Connection)
  read_in c room none = ret ([], c)
  read_in c room (some in_buffer) =
      let len = min room (length (contents in_buffer)) in
      if ltb 0 len
      then (do
        copied ← slice_to (contents in_buffer) len
        rest ← in_range len (contents in_buffer) (advance in_buffer len)
        ret (copied, record c { in_buffer = unless_empty rest }))
      else ret ([], record c { in_buffer = unless_empty in_buffer })

  read_io : Connection → ℕ → List ℕ → Option BytesMut → Run (List ℕ × Connection)
  read_io c room copied none = ret (copied, c)
  read_io c room copied (some io_buffer) =
      let len = min (room - length copied) (length (contents io_buffer)) in
      if ltb 0 len
      then (do
        more ← slice_to (contents io_buffer) len
        rest ← in_range len (contents io_buffer) (advance io_buffer len)
        ret (copied ++ more, record c { io_buffer = some rest }))
      else ret (copied, c)

  read_room : Connection → ℕ → Run (List ℕ × Connection)
  read_room c room = do
    (copied, c') ← read_in c room c.in_buffer
    (if length copied == room then ret (copied, c') else read_io c' room copied c'.io_buffer)

  unfoldable pub read : Connection → List ℕ → Run (ℕ × List ℕ × Connection)
  unfolding read_room read_in read_io
  read c buf = do
    (copied, c') ← read_room c (length buf)
    ret (length copied, copied ++ drop (length copied) buf, c')

  -- `next_message`: the codec sees the in buffer alone.
  decode_in :
      Connection
      → Option codecs.Codec
      → Option BytesMut
      → Run (IoResult (Option Message) × Connection)
  decode_in c (some codec) (some in_buffer) = do
    (codec', rest, res) ← decode codec in_buffer
    ret (res, record c { codec = some codec'; in_buffer = some rest })
  decode_in c (some codec) none = ret (ok none, c)
  decode_in c none b = ret (ok none, c)

  unfoldable pub next_message : Connection → Run (IoResult (Option Message) × Connection)
  unfolding decode_in
  next_message c = decode_in c c.codec c.in_buffer

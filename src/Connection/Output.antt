-- ===== src/Connection/Output.antt =====
-- The methods of src/connection.rs that send: at once if nothing waits, and else, or for the rest,
-- by the chunks of `out_buffer`.
pub mod Chunks
pub mod Wire
pub mod Delivery
pub mod Vectored
pub mod Flush
pub mod Sending
pub mod Keeping
use rnet.Prelude.{
  ℕ, zero, suc, ◌+◌, ◌-◌, Bool, true, false, ◌||◌, List, [], ◌∷◌, ◌++◌, Option, none, some, map,
  ltb, leb, ◌==◌, length, take, drop, if◌then◌else◌,
}
use rnet.Io.{
  ErrorKind, interrupted, would_block, write_zero, other, IoResult, ok, err, Run, ret, panic, ◌>>=◌,
  unwrap, concat, is_interrupted, is_would_block,
}
use rnet.Extern.Bytes.{BytesApi, in_range, slice_after}
use rnet.Extern.Streams.{StreamApi}
use rnet.Codec.{CodecApi}
use rnet.Socket
use rnet.Socket.{Socket}
use rnet.Connection.{Connection, chunks, queued}

-- `WouldBlock` and `Interrupted`, on which a write is put off.
abbrev pub put_off : ErrorKind → Bool
put_off e = is_would_block e || is_interrupted e

abbrev pub nonempty {ℓ} : {A : Type ℓ} → List A → Bool
nonempty [] = false
nonempty (x ∷ xs) = true

-- The most slices that one vectored write is given.
abbrev pub io_max : ℕ
io_max = 1024

module _ ⦃bytes : BytesApi⦄ ⦃streams : StreamApi⦄ ⦃codecs : CodecApi⦄ where
  open bytes use {BytesMut, Bytes, chunk, copy_from_slice, slice_from, advance_chunk, freeze}
  open codecs use {Message, encode}

  -- `out_buffer.get_or_insert_with(VecDeque::new)` with chunks put behind.
  abbrev pub push_all : Connection → List Bytes → Connection
  push_all c bs = record c { out_buffer = some (chunks c.out_buffer ++ bs) }

  -- `write` on the socket has returned, for bytes at hand as a slice.
  after_write : Connection → List ℕ → IoResult ℕ → Run (Connection × IoResult ℕ)
  after_write c buf (ok n) =
      if ltb n (length buf)
      then (do
        remaining ← slice_after buf n
        ret (push_all c (copy_from_slice remaining ∷ []), ok (length buf)))
      else ret (c, ok (length buf))
  after_write c buf (err e) =
      if put_off e
      then ret (push_all c (copy_from_slice buf ∷ []), ok (length buf))
      else ret (c, err e)

  -- `Write::write`.
  unfoldable pub write : Connection → List ℕ → Run (Connection × IoResult ℕ)
  unfolding after_write
  write c buf =
      if nonempty (chunks c.out_buffer)
      then ret (push_all c (copy_from_slice buf ∷ []), ok (length buf))
      else (do
        socket ← unwrap c.socket
        let (socket', res) = Socket.write socket buf
        after_write (record c { socket = some socket' }) buf res)

  after_write_bytes : Connection → Bytes → IoResult ℕ → Run (Connection × IoResult ℕ)
  after_write_bytes c buf (ok n) =
      if ltb n (length (chunk buf))
      then (do
        remaining ← in_range n (chunk buf) (slice_from buf n)
        ret (push_all c (remaining ∷ []), ok (length (chunk buf))))
      else ret (c, ok (length (chunk buf)))
  after_write_bytes c buf (err e) =
      if put_off e then ret (push_all c (buf ∷ []), ok (length (chunk buf))) else ret (c, err e)

  unfoldable pub write_bytes : Connection → Bytes → Run (Connection × IoResult ℕ)
  unfolding after_write_bytes
  write_bytes c buf =
      if nonempty (chunks c.out_buffer)
      then ret (push_all c (buf ∷ []), ok (length (chunk buf)))
      else (do
        socket ← unwrap c.socket
        let (socket', res) = Socket.write socket (chunk buf)
        after_write_bytes (record c { socket = some socket' }) buf res)

  -- The loops over the buffers of a vectored write that was accepted in part: what is queued.
  unfoldable pub left_of_slices : ℕ → List (List ℕ) → List Bytes
  left_of_slices written [] = []
  left_of_slices written (buf ∷ bufs) =
      let skip = left_of_slices (written - length buf) bufs in
      let keep = copy_from_slice (drop written buf) ∷ left_of_slices 0 bufs in
      if leb (length buf) written then skip else keep

  unfoldable pub left_of_bytes : ℕ → List Bytes → List Bytes
  left_of_bytes written [] = []
  left_of_bytes written (buf ∷ bufs) =
      let skip = left_of_bytes (written - length (chunk buf)) bufs in
      let cut = slice_from buf written ∷ left_of_bytes 0 bufs in
      let whole = buf ∷ left_of_bytes written bufs in
      if leb (length (chunk buf)) written then skip else if ltb 0 written then cut else whole

  after_vectored :
      Connection
      → (total_len : ℕ) (rest : ℕ → List Bytes) → List Bytes
      → IoResult ℕ
      → Connection × IoResult ℕ
  after_vectored c total_len rest all (ok n) =
      if ltb n total_len then (push_all c (rest n), ok total_len) else (c, ok total_len)
  after_vectored c total_len rest all (err e) =
      if put_off e then (push_all c all, ok total_len) else (c, err e)

  -- `Write::write_vectored`.
  unfoldable pub write_vectored : Connection → List (List ℕ) → Run (Connection × IoResult ℕ)
  unfolding after_vectored
  write_vectored c bufs =
      let total_len = length (concat bufs) in
      if total_len == 0
      then ret (c, ok 0)
      else if nonempty (chunks c.out_buffer)
      then ret (push_all c (map copy_from_slice bufs), ok total_len)
      else (do
        socket ← unwrap c.socket
        let (socket', res) = Socket.write_vectored socket bufs
        ret (
            after_vectored (record c { socket = some socket' }) total_len
              (λ n. left_of_slices n bufs) (map copy_from_slice bufs) res))

  unfoldable pub write_vectored_bytes : Connection → List Bytes → Run (Connection × IoResult ℕ)
  unfolding after_vectored
  write_vectored_bytes c bufs =
      let total_len = length (queued bufs) in
      if total_len == 0
      then ret (c, ok 0)
      else if nonempty (chunks c.out_buffer)
      then ret (push_all c bufs, ok total_len)
      else (do
        socket ← unwrap c.socket
        let (socket', res) = Socket.write_vectored socket (map chunk bufs)
        ret (
            after_vectored (record c { socket = some socket' }) total_len
              (λ n. left_of_bytes n bufs) bufs res))

  -- `while written > 0` over the front of the queue, once the stream has taken `written` bytes.
  unfoldable pub consume : ℕ → List Bytes → List Bytes
  consume zero q = q
  consume (suc written) [] = []
  consume (suc written) (front ∷ q) =
      let popped = consume (suc written - length (chunk front)) q in
      if leb (length (chunk front)) (suc written)
      then popped
      else advance_chunk front (suc written) ∷ q

  -- The loop of `flush`. `none` means that the fuel ran out.
  unfoldable pub flush_loop :
      ℕ → Socket → List Bytes → Option (Socket × List Bytes × IoResult (Unit {0}))
  flush_loop zero s q = none
  flush_loop (suc fuel) s q = elim (nonempty q) [
    | false ↦ some (s, q, ok tt)
    | true ↦
        let (s', res) = Socket.write_vectored s (map chunk (take io_max q)) in
        elim res [
          | ok n ↦ elim n [
            | zero ↦ some (s', q, err write_zero)
            | suc m ↦ flush_loop fuel s' (consume (suc m) q)
          ]
          | err e ↦ elim (is_interrupted e) [
            | true ↦ flush_loop fuel s' q
            | false ↦ some (s', q, err e)
          ]
        ]
  ]

  after_flush_loop :
      Connection
      → Option (Socket × List Bytes × IoResult (Unit {0}))
      → Option (Connection × IoResult (Unit {0}))
  after_flush_loop c none = none
  after_flush_loop c (some (s, q, err e)) =
      some (record c { socket = some s; out_buffer = some q }, err e)
  after_flush_loop c (some (s, q, ok u)) =
      let (s', res) = Socket.flush s in
      some (record c { socket = some s'; out_buffer = some q }, res)

  flush_queue :
      ℕ → Connection → Socket → Option (List Bytes) → Option (Connection × IoResult (Unit {0}))
  flush_queue fuel c s none =
      let (s', res) = Socket.flush s in some (record c { socket = some s' }, res)
  flush_queue fuel c s (some q) = after_flush_loop c (flush_loop fuel s q)

  -- `Write::flush`: what waits goes out first.
  unfoldable pub flush : ℕ → Connection → Run (Option (Connection × IoResult (Unit {0})))
  unfolding after_flush_loop flush_queue
  flush fuel c = do socket ← unwrap c.socket; ret (flush_queue fuel c socket c.out_buffer)

  send_encoded :
      Connection → BytesMut → IoResult (Unit {0}) → Run (Connection × IoResult (Unit {0}))
  send_encoded c buf (err e) = ret (c, err e)
  send_encoded c buf (ok u) = do
    (c', res) ← write_bytes c (freeze buf)
    ret (c', elim res [ ok n ↦ ok tt | err e ↦ err e ])

  send_by : Connection → Option codecs.Codec → Message → Run (Connection × IoResult (Unit {0}))
  send_by c none msg = ret (c, err other)
  send_by c (some codec) msg = do
    (codec', buf, res) ← encode codec msg bytes.new
    send_encoded (record c { codec = some codec' }) buf res

  -- `send`: the message goes through the codec, if one is set.
  unfoldable pub send : Connection → Message → Run (Connection × IoResult (Unit {0}))
  unfolding send_encoded send_by
  send c msg = send_by c c.codec msg

-- ===== src/Codec.antt =====
-- src/codec.rs: the trait of codecs as a record of its two methods, and the codec that passes bytes on.
mod Tests
use rnet.Prelude.{
  ℕ, Bool, true, false, Option, none, some, ◌≡◌, ◌≢◌, if◌then◌else◌, List, [], ◌++◌, length, arith,
  leb, ap, ◌∙◌, take_ge, drop_ge, refl,
}
use rnet.Prelude.Text.{is_empty, is_empty-ne, append-ne-nil}
use rnet.Io.{IoResult, ok, err, invalid_input, Run, ret, panic, ◌>>=◌}
use rnet.Extern.Bytes.{BytesApi, in_range}

module _ ⦃bytes : BytesApi⦄ where
  open bytes use {BytesMut, contents, split_to, extend_from_slice}

  -- A method on `&mut self` and `&mut BytesMut` returns both; `Message` is `Box<dyn Any + Send>`.
  pub record CodecApi : Type 1 where
    pub Codec : Type 0
    pub Message : Type 0
    pub decode : Codec → BytesMut → Run (Codec × BytesMut × IoResult (Option Message))
    pub encode : Codec → Message → BytesMut → Run (Codec × BytesMut × IoResult (Unit {0}))

  -- A boxed value whose type is looked at at run time: a `BytesMut`, or anything else.
  pub data AnyBox : Type 0 where
    bytes_mut : BytesMut → AnyBox
    foreign : ℕ → AnyBox

  pub data RawCodec : Type 0 where
    raw : RawCodec

  unfoldable pub decode : RawCodec → BytesMut → Run (RawCodec × BytesMut × IoResult (Option AnyBox))
  decode c src = if is_empty (contents src) then ret (c, src, ok none) else do
    let len = length (contents src)
    (front, rest) ← in_range len (contents src) (split_to src len)
    ret (c, rest, ok (some (bytes_mut front)))

  unfoldable pub encode :
      RawCodec → AnyBox → BytesMut → Run (RawCodec × BytesMut × IoResult (Unit {0}))
  encode c (bytes_mut msg) dst = ret (c, extend_from_slice dst (contents msg), ok tt)
  encode c (foreign k) dst = ret (c, dst, err invalid_input)

  -- `impl Codec for RawCodec`.
  abbrev pub raw_codec : CodecApi
  raw_codec = record { Codec = RawCodec; Message = AnyBox; decode = decode; encode = encode }

  decode_full :
      (b : BytesMut)
      → contents b ≢ []
      → let (front, rest) = split_to b (length (contents b)) in
        (decode raw b ≡ ret (raw, rest, ok (some (bytes_mut front))))
        × (contents front ≡ contents b)
        × (contents rest ≡ [])
  unfolding decode
  decode_full b full =
      let len = length (contents b) in
      let all : leb len len ≡ true = ground arith in
      let some_bytes : is_empty (contents b) ≡ false = is_empty-ne (contents b) full in
      (
        rw (some_bytes, all),
        rw (bytes.contents-split_to_front b len (omega arith))
            (take_ge len (contents b) (omega arith)),
        rw (bytes.contents-split_to_back b len (omega arith))
            (drop_ge len (contents b) (omega arith)),
      )

  decode_empty : (b : BytesMut) → contents b ≡ [] → decode raw b ≡ ret (raw, b, ok none)
  unfolding decode
  decode_empty b e = rw e

  -- A message with bytes in it that was encoded behind others is decoded together with them, once,
  -- and nothing stays behind.
  pub decode-encode :
      (msg dst : BytesMut)
      → contents msg ≢ []
      → (dst' front rest : BytesMut) × (encode raw (bytes_mut msg) dst ≡ ret (raw, dst', ok tt))
        × (decode raw dst' ≡ ret (raw, rest, ok (some (bytes_mut front))))
        × (contents front ≡ contents dst ++ contents msg)
        × (contents rest ≡ [])
        × (decode raw rest ≡ ret (raw, rest, ok none))
  unfolding encode
  decode-encode msg dst full =
      let dst' = extend_from_slice dst (contents msg) in
      let held = bytes.contents-extend_from_slice dst (contents msg) in
      let (front, rest) = split_to dst' (length (contents dst')) in
      let (out, read, nothing) = decode_full dst' (rw held (append-ne-nil (contents dst) full)) in
      (dst', front, rest, refl, out, rw read held, nothing, decode_empty rest nothing)

-- ===== src/Connection/Output/Sending.antt =====
-- `send` of src/connection.rs: what a codec's encoding of a message comes to on the wire.
use rnet.Prelude.{ℕ, ◌≡◌, inl, inr, refl, ap, sym, ◌∙◌, List, ◌++◌, some}
use rnet.Io.{ErrorKind, IoResult, ok, err, Run, ret, ◌>>=◌}
use rnet.Extern.Bytes.{BytesApi}
use rnet.Extern.Streams.{StreamApi}
use rnet.Codec.{CodecApi}
use rnet.Socket
use rnet.Socket.{Socket}
use rnet.Connection.{Connection}
use rnet.Connection.Output.{send_encoded, send_by, send}
use rnet.Connection.Output.Wire.{wire}
use rnet.Connection.Output.Delivery.{write_bytes_lem}

module _ ⦃bytes : BytesApi⦄ ⦃streams : StreamApi⦄ ⦃codecs : CodecApi⦄ where
  open bytes use {BytesMut, contents, freeze}
  open codecs use {Codec, Message, encode}

  abbrev unit_result : IoResult ℕ → IoResult (Unit {0})
  unit_result (ok n) = ok tt
  unit_result (err e) = err e

  -- What becomes of a message, by what the codec returned, the bytes `d` that it has written, and the
  -- connection's socket `s`: the codec's error is returned and nothing is sent; or all bytes are sent or
  -- queued; or the socket's error is returned and none is.
  pub data Sends (res : IoResult (Unit {0})) (s : Socket) (d : List ℕ) (c c' : Connection)
      (r : IoResult (Unit {0})) : Type 0 where
    not_encoded :
        {e : ErrorKind}
        → res ≡ err e
        → r ≡ err e
        → c' ≡ record c { codec = c'.codec }
        → Sends res s d c c' r
    all_sent : res ≡ ok tt → r ≡ ok tt → wire c' ≡ wire c ++ d → Sends res s d c c' r
    not_sent :
        {e : ErrorKind}
        → res ≡ ok tt
        → (Socket.write s d).1 ≡ err e
        → r ≡ err e
        → wire c' ≡ wire c
        → Sends res s d c c' r

  send_encoded-Sends :
      (c : Connection) (codec : Codec) (s : Socket) (buf : BytesMut) (res : IoResult (Unit {0}))
      → c.socket ≡ some s
      → (c' : Connection) × (r : IoResult (Unit {0})) × (send_encoded
            (record c { codec = some codec })
            buf
            res
          ≡ ret (c', r))
        × Sends res s (contents buf) c c' r
  unfolding send_encoded
  send_encoded-Sends c codec s buf (err e) at_s =
      (record c { codec = some codec }, err e, refl, not_encoded refl refl refl)
  send_encoded-Sends c codec s buf (ok tt) at_s =
      let c0 = record c { codec = some codec } in
      let (c', r, e, delivers) = write_bytes_lem c0 s (freeze buf) at_s in
      let held = bytes.chunk-freeze buf in
      (
        c',
        unit_result r,
        ap
            (λ (t : Run (Connection × IoResult ℕ)).
              t >>= λ (x : Connection × IoResult ℕ). ret (x.0, unit_result x.1))
            e,
        elim delivers.outcome [
          | inl (fine, all) ↦ all_sent refl (ap unit_result fine) (all ∙ ap (◌++◌ (wire c)) held)
          | inr (k, wrong, idle, answered, kind, same) ↦
              not_sent refl (ap (λ (d : List ℕ). (Socket.write s d).1) (sym held) ∙ answered)
                (ap unit_result wrong) same
        ],
      )

  send_of :
      (c : Connection) (codec : Codec) (msg : Message) (codec' : Codec) (buf : BytesMut)
      (res : IoResult (Unit {0}))
      → c.codec ≡ some codec
      → encode codec msg bytes.new ≡ ret (codec', buf, res)
      → send c msg ≡ send_encoded (record c { codec = some codec' }) buf res
  unfolding send send_by
  send_of c codec msg codec' buf res at_codec encoded = rw (at_codec, encoded)

  -- `send` with a codec that does not panic: if the codec fails, its error is returned, and nothing
  -- but the codec changes. Else either all bytes of the encoded message stand behind what was sent or
  -- queued before and it succeeds, or it fails by the error that the socket answers and adds nothing.
  pub send_lem :
      (c : Connection) (s : Socket) (codec : Codec) (msg : Message) (codec' : Codec)
      (buf : BytesMut) (res : IoResult (Unit {0}))
      → c.socket ≡ some s
      → c.codec ≡ some codec
      → encode codec msg bytes.new ≡ ret (codec', buf, res)
      → (c' : Connection) × (r : IoResult (Unit {0})) × (send c msg ≡ ret (c', r))
        × Sends res s (contents buf) c c' r
  send_lem c s codec msg codec' buf res at_s at_codec encoded =
      let (c', r, e, sends) = send_encoded-Sends c codec' s buf res at_s in
      (c', r, send_of c codec msg codec' buf res at_codec encoded ∙ e, sends)

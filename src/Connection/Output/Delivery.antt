-- ===== src/Connection/Output/Delivery.antt =====
-- `write` and `write_bytes` of src/connection.rs lose, repeat and reorder nothing.
use rnet.Prelude.{
  ℕ, ◌≤◌, ◌≡◌, inl, inr, refl, ap, sym, ◌∙◌, true, false, List, [], ◌∷◌, some, ltb, leb, length,
  drop, arith, Bool-cases,
}
use rnet.Io.{IoResult, ok, err, ret}
use rnet.Extern.Bytes.{BytesApi}
use rnet.Extern.Streams.{StreamApi}
use rnet.Codec.{CodecApi}
use rnet.Socket
use rnet.Socket.{Socket, sent}
use rnet.Socket.Sent
use rnet.Connection.{Connection, chunks, unsent}
use rnet.Connection.Output.{
  put_off, nonempty, push_all, after_write, write, after_write_bytes, write_bytes,
}
use rnet.Connection.Output.Wire.{
  Delivers, settle_part, settle_all, settle_none, settle_later, queued_one, idle-unsent,
  not_put_off, busy-Delivers,
}

module _ ⦃bytes : BytesApi⦄ ⦃streams : StreamApi⦄ ⦃codecs : CodecApi⦄ where
  open bytes use {Bytes, chunk, copy_from_slice, slice_from}

  -- The rest of `write` once the socket has answered.
  after_write-Delivers :
      (c : Connection) (s s' : Socket) (buf : List ℕ) (res : IoResult ℕ)
      → c.socket ≡ some s
      → unsent c ≡ []
      → Socket.write s buf ≡ (s', res)
      → (c' : Connection) × (r : IoResult ℕ) × (after_write (record c { socket = some s' }) buf res
          ≡ ret (c', r))
        × Delivers (Socket.write s buf) c buf c' r
  unfolding after_write
  after_write-Delivers c s s' buf (ok n) at_s idle e =
      let same_s = ap (λ (p : Socket × IoResult ℕ). sent p.0) e in
      let (fits, took) = Sent.write-ok s buf n (ap (λ (p : Socket × IoResult ℕ). p.1) e) in
      let took' = sym same_s ∙ took in
      elim (Bool-cases (ltb n (length buf))) [
        | inl part ↦
            let within : leb n (length buf) ≡ true = ground arith in
            let bs = copy_from_slice (drop n buf) ∷ [] in
            let left =
              queued_one (copy_from_slice (drop n buf))
              ∙ bytes.chunk-copy_from_slice (drop n buf) in
            (
              push_all (record c { socket = some s' }) bs,
              ok (length buf),
              rw (part, within),
              record {
                outcome = inl (refl, settle_part c s s' buf n bs at_s idle took' left);
                frame = refl;
                asked = inl (ap (λ (p : Socket × IoResult ℕ). some p.0) (sym e));
              },
            )
        | inr all ↦
            let done : length buf ≤ n = ground arith in
            (
              record c { socket = some s' },
              ok (length buf),
              rw all,
              record {
                outcome = inl (refl, settle_all c s s' buf n at_s idle took' done);
                frame = refl;
                asked = inl (ap (λ (p : Socket × IoResult ℕ). some p.0) (sym e));
              },
            )
      ]
  after_write-Delivers c s s' buf (err k) at_s idle e =
      let same_s = ap (λ (p : Socket × IoResult ℕ). sent p.0) e in
      let kept = sym same_s ∙ Sent.write-err s buf k (ap (λ (p : Socket × IoResult ℕ). p.1) e) in
      elim (Bool-cases (put_off k)) [
        | inl later ↦
            let bs = copy_from_slice buf ∷ [] in
            let all = queued_one (copy_from_slice buf) ∙ bytes.chunk-copy_from_slice buf in
            (
              push_all (record c { socket = some s' }) bs,
              ok (length buf),
              rw later,
              record {
                outcome = inl (refl, settle_later c s s' buf bs at_s kept all);
                frame = refl;
                asked = inl (ap (λ (p : Socket × IoResult ℕ). some p.0) (sym e));
              },
            )
        | inr failed ↦ (
          record c { socket = some s' },
          err k,
          rw failed,
          record {
            outcome = inr (
              k,
              refl,
              idle,
              ap (λ (p : Socket × IoResult ℕ). p.1) e,
              not_put_off k failed,
              settle_none c s s' at_s kept,
            );
            frame = refl;
            asked = inl (ap (λ (p : Socket × IoResult ℕ). some p.0) (sym e));
          },
        )
      ]

  write_of :
      (c c' : Connection) (s : Socket) (buf : List ℕ) (r : IoResult ℕ)
      → nonempty (chunks c.out_buffer) ≡ false
      → c.socket ≡ some s
      → (let (s', res) = Socket.write s buf in
          after_write (record c { socket = some s' }) buf res ≡ ret (c', r))
      → write c buf ≡ ret (c', r)
  unfolding write
  write_of c c' s buf r idle at_s e = rw (idle, at_s) e

  write_busy :
      (c : Connection) (buf : List ℕ)
      → nonempty (chunks c.out_buffer) ≡ true
      → write c buf ≡ ret (push_all c (copy_from_slice buf ∷ []), ok (length buf))
  unfolding write
  write_busy c buf busy = rw busy

  -- `write` on a connection with a socket never panics. It delivers the bytes that it is given, to
  -- the socket or to the queue, or fails by the error that the socket answers, other than `WouldBlock` and
  -- `Interrupted`, and delivers none; what was sent or queued before stays in front. The
  -- socket is asked unless something waits already, or there are no bytes.
  pub write_lem :
      (c : Connection) (s : Socket) (buf : List ℕ)
      → c.socket ≡ some s
      → (c' : Connection) × (r : IoResult ℕ) × (write c buf ≡ ret (c', r))
        × Delivers (Socket.write s buf) c buf c' r
  write_lem c s buf at_s = elim (Bool-cases (nonempty (chunks c.out_buffer))) [
    | inl busy ↦ (
      push_all c (copy_from_slice buf ∷ []),
      ok (length buf),
      write_busy c buf busy,
      busy-Delivers _ c buf (copy_from_slice buf ∷ []) busy
          (queued_one (copy_from_slice buf) ∙ bytes.chunk-copy_from_slice buf),
    )
    | inr idle ↦
        let (s', res) = Socket.write s buf in
        let (c', r, e, delivers) =
          after_write-Delivers c s s' buf res at_s (idle-unsent c.out_buffer idle) refl in
        (c', r, write_of c c' s buf r idle at_s e, delivers)
  ]

  -- The rest of `write_bytes` once the socket has answered.
  after_write_bytes-Delivers :
      (c : Connection) (s s' : Socket) (buf : Bytes) (res : IoResult ℕ)
      → c.socket ≡ some s
      → unsent c ≡ []
      → Socket.write s (chunk buf) ≡ (s', res)
      → (c' : Connection) × (r : IoResult ℕ) × (after_write_bytes
            (record c { socket = some s' })
            buf
            res
          ≡ ret (c', r))
        × Delivers (Socket.write s (chunk buf)) c (chunk buf) c' r
  unfolding after_write_bytes
  after_write_bytes-Delivers c s s' buf (ok n) at_s idle e =
      let same_s = ap (λ (p : Socket × IoResult ℕ). sent p.0) e in
      let (fits, took) = Sent.write-ok s (chunk buf) n (ap (λ (p : Socket × IoResult ℕ). p.1) e) in
      let took' = sym same_s ∙ took in
      elim (Bool-cases (ltb n (length (chunk buf)))) [
        | inl part ↦
            let within : leb n (length (chunk buf)) ≡ true = ground arith in
            let bs = slice_from buf n ∷ [] in
            let left = queued_one (slice_from buf n) ∙ bytes.chunk-slice_from buf n fits in
            (
              push_all (record c { socket = some s' }) bs,
              ok (length (chunk buf)),
              rw (part, within),
              record {
                outcome = inl (refl, settle_part c s s' (chunk buf) n bs at_s idle took' left);
                frame = refl;
                asked = inl (ap (λ (p : Socket × IoResult ℕ). some p.0) (sym e));
              },
            )
        | inr all ↦
            let done : length (chunk buf) ≤ n = ground arith in
            (
              record c { socket = some s' },
              ok (length (chunk buf)),
              rw all,
              record {
                outcome = inl (refl, settle_all c s s' (chunk buf) n at_s idle took' done);
                frame = refl;
                asked = inl (ap (λ (p : Socket × IoResult ℕ). some p.0) (sym e));
              },
            )
      ]
  after_write_bytes-Delivers c s s' buf (err k) at_s idle e =
      let same_s = ap (λ (p : Socket × IoResult ℕ). sent p.0) e in
      let kept =
        sym same_s ∙ Sent.write-err s (chunk buf) k (ap (λ (p : Socket × IoResult ℕ). p.1) e) in
      elim (Bool-cases (put_off k)) [
        | inl later ↦
            let bs = buf ∷ [] in
            let all = queued_one buf in
            (
              push_all (record c { socket = some s' }) bs,
              ok (length (chunk buf)),
              rw later,
              record {
                outcome = inl (refl, settle_later c s s' (chunk buf) bs at_s kept all);
                frame = refl;
                asked = inl (ap (λ (p : Socket × IoResult ℕ). some p.0) (sym e));
              },
            )
        | inr failed ↦ (
          record c { socket = some s' },
          err k,
          rw failed,
          record {
            outcome = inr (
              k,
              refl,
              idle,
              ap (λ (p : Socket × IoResult ℕ). p.1) e,
              not_put_off k failed,
              settle_none c s s' at_s kept,
            );
            frame = refl;
            asked = inl (ap (λ (p : Socket × IoResult ℕ). some p.0) (sym e));
          },
        )
      ]

  write_bytes_of :
      (c c' : Connection) (s : Socket) (buf : Bytes) (r : IoResult ℕ)
      → nonempty (chunks c.out_buffer) ≡ false
      → c.socket ≡ some s
      → (let (s', res) = Socket.write s (chunk buf) in
          after_write_bytes (record c { socket = some s' }) buf res ≡ ret (c', r))
      → write_bytes c buf ≡ ret (c', r)
  unfolding write_bytes
  write_bytes_of c c' s buf r idle at_s e = rw (idle, at_s) e

  write_bytes_busy :
      (c : Connection) (buf : Bytes)
      → nonempty (chunks c.out_buffer) ≡ true
      → write_bytes c buf ≡ ret (push_all c (buf ∷ []), ok (length (chunk buf)))
  unfolding write_bytes
  write_bytes_busy c buf busy = rw busy

  -- `write_bytes` on a connection with a socket never panics. It delivers the bytes that it is given, to
  -- the socket or to the queue, or fails by the error that the socket answers, other than `WouldBlock` and
  -- `Interrupted`, and delivers none; what was sent or queued before stays in front. The
  -- socket is asked unless something waits already, or there are no bytes.
  pub write_bytes_lem :
      (c : Connection) (s : Socket) (buf : Bytes)
      → c.socket ≡ some s
      → (c' : Connection) × (r : IoResult ℕ) × (write_bytes c buf ≡ ret (c', r))
        × Delivers (Socket.write s (chunk buf)) c (chunk buf) c' r
  write_bytes_lem c s buf at_s = elim (Bool-cases (nonempty (chunks c.out_buffer))) [
    | inl busy ↦ (
      push_all c (buf ∷ []),
      ok (length (chunk buf)),
      write_bytes_busy c buf busy,
      busy-Delivers _ c (chunk buf) (buf ∷ []) busy (queued_one buf),
    )
    | inr idle ↦
        let (s', res) = Socket.write s (chunk buf) in
        let (c', r, e, delivers) =
          after_write_bytes-Delivers c s s' buf res at_s (idle-unsent c.out_buffer idle) refl in
        (c', r, write_bytes_of c c' s buf r idle at_s e, delivers)
  ]

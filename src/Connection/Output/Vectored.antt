-- ===== src/Connection/Output/Vectored.antt =====
-- `write_vectored` and `write_vectored_bytes` of src/connection.rs lose, repeat and reorder nothing.
use rnet.Prelude.{
  ℕ, ◌≤◌, ◌≡◌, inl, inr, refl, ap, sym, ◌∙◌, true, false, List, [], ◌∷◌, some, map, ltb, ◌==◌,
  length, drop, arith, Bool-cases, ==_iff, append-nil,
}
use rnet.Io.{IoResult, ok, err, ret, concat}
use rnet.Extern.Bytes.{BytesApi}
use rnet.Extern.Streams.{StreamApi}
use rnet.Codec.{CodecApi}
use rnet.Socket
use rnet.Socket.{Socket, sent}
use rnet.Socket.Sent
use rnet.Connection.{Connection, chunks, queued, unsent}
use rnet.Connection.Output.{
  put_off, nonempty, push_all, after_vectored, write_vectored, write_vectored_bytes, left_of_slices,
  left_of_bytes,
}
use rnet.Connection.Output.Chunks.{queued-copies, queued-left_of_slices, queued-left_of_bytes}
use rnet.Connection.Output.Wire.{
  wire, Delivers, settle_part, settle_all, settle_none, settle_later, idle-unsent, not_put_off,
  busy-Delivers,
}

module _ ⦃bytes : BytesApi⦄ ⦃streams : StreamApi⦄ ⦃codecs : CodecApi⦄ where
  open bytes use {Bytes, chunk, copy_from_slice, slice_from}

  nothing-Delivers :
      (answer : Socket × IoResult ℕ) (c : Connection) (d : List ℕ)
      → length d ≡ 0
      → Delivers answer c d c (ok 0)
  nothing-Delivers a c [] e = record {
    outcome = inl (refl, sym (append-nil (wire c)));
    frame = refl;
    asked = inr (refl, inr refl);
  }
  nothing-Delivers a c (x ∷ d) e = absurd (omega arith)

  -- The rest of a vectored write once the socket has answered.
  after_vectored-Delivers :
      (c : Connection) (s s' : Socket) (slices : List (List ℕ)) (rest : ℕ → List Bytes)
      (all : List Bytes) (res : IoResult ℕ)
      → c.socket ≡ some s
      → unsent c ≡ []
      → ((n : ℕ) → queued (rest n) ≡ drop n (concat slices))
      → queued all ≡ concat slices
      → Socket.write_vectored s slices ≡ (s', res)
      → let (c', r) =
          after_vectored (record c { socket = some s' }) (length (concat slices)) rest all res in
        Delivers (Socket.write_vectored s slices) c (concat slices) c' r
  unfolding after_vectored
  after_vectored-Delivers c s s' slices rest all (ok n) at_s idle left whole e =
      let d = concat slices in
      let same_s = ap (λ (p : Socket × IoResult ℕ). sent p.0) e in
      let (fits, took) =
        Sent.write_vectored-ok s slices n (ap (λ (p : Socket × IoResult ℕ). p.1) e) in
      let took' = sym same_s ∙ took in
      elim (Bool-cases (ltb n (length d))) [
        | inl part ↦ rw part (record {
          outcome = inl (refl, settle_part c s s' d n (rest n) at_s idle took' (left n));
          frame = refl;
          asked = inl (ap (λ (p : Socket × IoResult ℕ). some p.0) (sym e));
        })
        | inr full ↦
            let done : length d ≤ n = ground arith in
            rw full (record {
              outcome = inl (refl, settle_all c s s' d n at_s idle took' done);
              frame = refl;
              asked = inl (ap (λ (p : Socket × IoResult ℕ). some p.0) (sym e));
            })
      ]
  after_vectored-Delivers c s s' slices rest all (err k) at_s idle left whole e =
      let d = concat slices in
      let same_s = ap (λ (p : Socket × IoResult ℕ). sent p.0) e in
      let kept =
        sym same_s ∙ Sent.write_vectored-err s slices k (ap (λ (p : Socket × IoResult ℕ). p.1) e) in
      elim (Bool-cases (put_off k)) [
        | inl later ↦ rw later (record {
          outcome = inl (refl, settle_later c s s' d all at_s kept whole);
          frame = refl;
          asked = inl (ap (λ (p : Socket × IoResult ℕ). some p.0) (sym e));
        })
        | inr failed ↦ rw failed (record {
          outcome = inr (
            k,
            refl,
            idle,
            ap (λ (p : Socket × IoResult ℕ). p.1) e,
            not_put_off k failed,
            settle_none c s s' at_s kept,
          );
          frame = refl;
          asked = inl (ap (λ (p : Socket × IoResult ℕ). some p.0) (sym e));
        })
      ]

  write_vectored_of :
      (c : Connection) (s : Socket) (bufs : List (List ℕ))
      → (length (concat bufs) == 0) ≡ false
      → nonempty (chunks c.out_buffer) ≡ false
      → c.socket ≡ some s
      → let (s', res) = Socket.write_vectored s bufs in
        write_vectored c bufs
        ≡ ret (
            after_vectored
              (record c { socket = some s' })
              (length (concat bufs))
              (λ n. left_of_slices n bufs)
              (map copy_from_slice bufs)
              res)
  unfolding write_vectored
  write_vectored_of c s bufs some_bytes idle at_s = rw (some_bytes, idle, at_s)

  write_vectored_busy :
      (c : Connection) (bufs : List (List ℕ))
      → (length (concat bufs) == 0) ≡ false
      → nonempty (chunks c.out_buffer) ≡ true
      → write_vectored c bufs
        ≡ ret (push_all c (map copy_from_slice bufs), ok (length (concat bufs)))
  unfolding write_vectored
  write_vectored_busy c bufs some_bytes busy = rw (some_bytes, busy)

  write_vectored_empty :
      (c : Connection) (bufs : List (List ℕ))
      → (length (concat bufs) == 0) ≡ true
      → write_vectored c bufs ≡ ret (c, ok 0)
  unfolding write_vectored
  write_vectored_empty c bufs no_bytes = rw no_bytes

  -- `write_vectored` on a connection with a socket never panics. It delivers the bytes of all buffers, in
  -- order, to the socket or to the queue, or fails by the error that the socket answers, other than `WouldBlock`
  -- and `Interrupted`, and delivers none; what was sent or queued before stays in front. The
  -- socket is asked unless something waits already, or there are no bytes.
  pub write_vectored_lem :
      (c : Connection) (s : Socket) (bufs : List (List ℕ))
      → c.socket ≡ some s
      → (c' : Connection) × (r : IoResult ℕ) × (write_vectored c bufs ≡ ret (c', r))
        × Delivers (Socket.write_vectored s bufs) c (concat bufs) c' r
  write_vectored_lem c s bufs at_s = elim (Bool-cases (length (concat bufs) == 0)) [
    | inl no_bytes ↦ (
      c,
      ok 0,
      write_vectored_empty c bufs no_bytes,
      nothing-Delivers _ c (concat bufs) ((==_iff _ 0).0 no_bytes),
    )
    | inr some_bytes ↦ elim (Bool-cases (nonempty (chunks c.out_buffer))) [
      | inl busy ↦ (
        push_all c (map copy_from_slice bufs),
        ok (length (concat bufs)),
        write_vectored_busy c bufs some_bytes busy,
        busy-Delivers _ c (concat bufs) (map copy_from_slice bufs) busy (queued-copies bufs),
      )
      | inr idle ↦
          let (s', res) = Socket.write_vectored s bufs in
          let (c', r) =
            after_vectored (record c { socket = some s' }) (length (concat bufs))
              (λ n. left_of_slices n bufs) (map copy_from_slice bufs) res in
          (
            c',
            r,
            write_vectored_of c s bufs some_bytes idle at_s,
            after_vectored-Delivers c s s' bufs (λ n. left_of_slices n bufs)
                (map copy_from_slice bufs) res at_s (idle-unsent c.out_buffer idle)
                (λ n. queued-left_of_slices n bufs) (queued-copies bufs) refl,
          )
    ]
  ]

  write_vectored_bytes_of :
      (c : Connection) (s : Socket) (bufs : List Bytes)
      → (length (queued bufs) == 0) ≡ false
      → nonempty (chunks c.out_buffer) ≡ false
      → c.socket ≡ some s
      → let (s', res) = Socket.write_vectored s (map chunk bufs) in
        write_vectored_bytes c bufs
        ≡ ret (
            after_vectored
              (record c { socket = some s' })
              (length (queued bufs))
              (λ n. left_of_bytes n bufs)
              bufs
              res)
  unfolding write_vectored_bytes
  write_vectored_bytes_of c s bufs some_bytes idle at_s = rw (some_bytes, idle, at_s)

  write_vectored_bytes_busy :
      (c : Connection) (bufs : List Bytes)
      → (length (queued bufs) == 0) ≡ false
      → nonempty (chunks c.out_buffer) ≡ true
      → write_vectored_bytes c bufs ≡ ret (push_all c bufs, ok (length (queued bufs)))
  unfolding write_vectored_bytes
  write_vectored_bytes_busy c bufs some_bytes busy = rw (some_bytes, busy)

  write_vectored_bytes_empty :
      (c : Connection) (bufs : List Bytes)
      → (length (queued bufs) == 0) ≡ true
      → write_vectored_bytes c bufs ≡ ret (c, ok 0)
  unfolding write_vectored_bytes
  write_vectored_bytes_empty c bufs no_bytes = rw no_bytes

  -- `write_vectored_bytes` on a connection with a socket never panics. It delivers the bytes of all buffers, in
  -- order, to the socket or to the queue, or fails by the error that the socket answers, other than `WouldBlock`
  -- and `Interrupted`, and delivers none; what was sent or queued before stays in front. The
  -- socket is asked unless something waits already, or there are no bytes.
  pub write_vectored_bytes_lem :
      (c : Connection) (s : Socket) (bufs : List Bytes)
      → c.socket ≡ some s
      → (c' : Connection) × (r : IoResult ℕ) × (write_vectored_bytes c bufs ≡ ret (c', r))
        × Delivers (Socket.write_vectored s (map chunk bufs)) c (queued bufs) c' r
  write_vectored_bytes_lem c s bufs at_s = elim (Bool-cases (length (queued bufs) == 0)) [
    | inl no_bytes ↦ (
      c,
      ok 0,
      write_vectored_bytes_empty c bufs no_bytes,
      nothing-Delivers _ c (queued bufs) ((==_iff _ 0).0 no_bytes),
    )
    | inr some_bytes ↦ elim (Bool-cases (nonempty (chunks c.out_buffer))) [
      | inl busy ↦ (
        push_all c bufs,
        ok (length (queued bufs)),
        write_vectored_bytes_busy c bufs some_bytes busy,
        busy-Delivers _ c (queued bufs) bufs busy refl,
      )
      | inr idle ↦
          let (s', res) = Socket.write_vectored s (map chunk bufs) in
          let (c', r) =
            after_vectored (record c { socket = some s' }) (length (queued bufs))
              (λ n. left_of_bytes n bufs) bufs res in
          (
            c',
            r,
            write_vectored_bytes_of c s bufs some_bytes idle at_s,
            after_vectored-Delivers c s s' (map chunk bufs) (λ n. left_of_bytes n bufs) bufs res
                at_s (idle-unsent c.out_buffer idle) (λ n. queued-left_of_bytes n bufs) refl refl,
          )
    ]
  ]

-- ===== src/Connection/Output/Flush.antt =====
-- `flush` of src/connection.rs: it ends, loses nothing, and empties the queue where it succeeds.
use rnet.Prelude.{
  ℕ, zero, suc, ◌+◌, ◌≤◌, ◌<◌, ◌≡◌, ◌⊎◌, inl, inr, refl, ap, ap₂, sym, ◌∙◌, true, false, List, [],
  ◌∷◌, ◌++◌, Option, none, some, map, length, take, drop, arith, Bool-cases, append-nil,
  append_assoc, take-append-drop, length-append, length-drop, take-append_le, map-append,
}
use rnet.Io.{
  ErrorKind, interrupted, write_zero, IoResult, ok, err, ret, concat, concat-append, is_interrupted,
}
use rnet.Extern.Bytes.{BytesApi}
use rnet.Extern.Streams.{StreamApi}
use rnet.Codec.{CodecApi}
use rnet.Socket
use rnet.Socket.{Socket, sent, interruptions}
use rnet.Socket.Sent
use rnet.Connection.{Connection, chunks, queued, unsent}
use rnet.Connection.Output.{io_max, consume, flush_loop, flush, flush_queue, after_flush_loop}
use rnet.Connection.Output.Chunks.{queued-consume}
use rnet.Connection.Output.Wire.{wire, sent_by}

module _ ⦃bytes : BytesApi⦄ ⦃streams : StreamApi⦄ ⦃codecs : CodecApi⦄ where
  open bytes use {Bytes, chunk}

  -- What bounds the rounds: the bytes that wait, and the interruptions to come.
  abbrev pub work : Socket → List Bytes → ℕ
  work s q = length (queued q) + interruptions s

  -- The slices of the first chunks are the front of all.
  front_slices :
      (m n : ℕ) (q : List Bytes)
      → n ≤ length (concat (map chunk (take m q)))
      → (n ≤ length (queued q)) × (take n (concat (map chunk (take m q))) ≡ take n (queued q))
  front_slices m n q fits =
      let whole : concat (map chunk (take m q)) ++ concat (map chunk (drop m q)) ≡ queued q =
        sym (concat-append (map chunk (take m q)) (map chunk (drop m q)))
        ∙ ap concat (sym (map-append chunk (take m q) (drop m q)))
        ∙ ap queued (take-append-drop m q) in
      let size = ap length whole in
      let sum = length-append (concat (map chunk (take m q))) (concat (map chunk (drop m q))) in
      (
        omega arith,
        sym (take-append_le n (concat (map chunk (take m q))) (concat (map chunk (drop m q))) fits)
            ∙ ap (take n) whole,
      )

  -- One round that wrote: the stream has the bytes, the queue lost them, and less is to do.
  pub round_wrote :
      (s s' : Socket) (q : List Bytes) (n : ℕ)
      → Socket.write_vectored s (map chunk (take io_max q)) ≡ (s', ok (suc n))
      → (sent s' ++ queued (consume (suc n) q) ≡ sent s ++ queued q)
        × (work s' (consume (suc n) q) < work s q)
        × (length (queued (consume (suc n) q)) + suc n ≡ length (queued q))
  round_wrote s s' q n e =
      let slices = map chunk (take io_max q) in
      let same_sent = ap (λ (p : Socket × IoResult ℕ). sent p.0) e in
      let same_count = ap (λ (p : Socket × IoResult ℕ). interruptions p.0) e in
      let (fits, took) =
        Sent.write_vectored-ok s slices (suc n) (ap (λ (p : Socket × IoResult ℕ). p.1) e) in
      let calls = Sent.write_vectored-interruptions s slices in
      let (within, front) = front_slices io_max (suc n) q fits in
      let rest = queued-consume (suc n) q in
      let size = ap length rest in
      let dropped = length-drop (suc n) (queued q) in
      (
        ap₂ ◌++◌ (sym same_sent ∙ took ∙ ap (◌++◌ (sent s)) front) rest
            ∙ append_assoc (sent s) (take (suc n) (queued q)) (drop (suc n) (queued q))
            ∙ ap (◌++◌ (sent s)) (take-append-drop (suc n) (queued q)),
        omega arith,
        omega arith,
      )

  -- One round that failed: nothing was sent; after an interruption less is to do.
  pub round_failed :
      (s s' : Socket) (q : List Bytes) (k : ErrorKind)
      → Socket.write_vectored s (map chunk (take io_max q)) ≡ (s', err k)
      → (sent s' ≡ sent s) × (is_interrupted k ≡ true → work s' q < work s q)
  round_failed s s' q k e =
      let slices = map chunk (take io_max q) in
      let same_sent = ap (λ (p : Socket × IoResult ℕ). sent p.0) e in
      let same_count = ap (λ (p : Socket × IoResult ℕ). interruptions p.0) e in
      let failed = ap (λ (p : Socket × IoResult ℕ). p.1) e in
      (
        sym same_sent ∙ Sent.write_vectored-err s slices k failed,
        λ cut.
            let fewer =
              Sent.write_vectored-interrupted s slices (failed ∙ ap err (only_interrupted k cut)) in
            omega arith,
      )
    where
      only_interrupted : (k : ErrorKind) → is_interrupted k ≡ true → k ≡ interrupted
      only_interrupted k h = ground arith

  -- The four kinds of answer.
  pub data Answered (w : Socket × IoResult ℕ) : Type 0 where
    nothing : (s' : Socket) → w ≡ (s', ok 0) → Answered w
    some_bytes : (s' : Socket) (n : ℕ) → w ≡ (s', ok (suc n)) → Answered w
    failed : (s' : Socket) (k : ErrorKind) → w ≡ (s', err k) → Answered w

  pub answered : (w : Socket × IoResult ℕ) → Answered w
  answered (s', ok zero) = nothing s' refl
  answered (s', ok (suc n)) = some_bytes s' n refl
  answered (s', err k) = failed s' k refl

  -- What the loop has done when it ends: the wire is as it was, and the queue is empty, or the
  -- socket took nothing or failed by an error that is no interruption.
  record Flushed (s : Socket) (q : List Bytes)
      (out : Option (Socket × List Bytes × IoResult (Unit {0}))) : Type 0 where
    after : Socket
    left : List Bytes
    res : IoResult (Unit {0})
    ended : out ≡ some (after, left, res)
    kept : sent after ++ queued left ≡ sent s ++ queued q
    result :
        ((res ≡ ok tt) × (left ≡ []))
        ⊎ ((k : ErrorKind) × (res ≡ err k) × (is_interrupted k ≡ false))

  -- One round in which the socket took nothing.
  pub nothing_sent :
      (s s' : Socket) (q : List Bytes)
      → Socket.write_vectored s (map chunk (take io_max q)) ≡ (s', ok 0)
      → sent s' ≡ sent s
  nothing_sent s s' q e =
      let slices = map chunk (take io_max q) in
      let (fits, took) =
        Sent.write_vectored-ok s slices 0 (ap (λ (p : Socket × IoResult ℕ). p.1) e) in
      sym (ap (λ (p : Socket × IoResult ℕ). sent p.0) e) ∙ took ∙ append-nil (sent s)

  -- The four ways a round goes on.
  loop_stuck :
      (fuel : ℕ) (s s' : Socket) (b : Bytes) (bs : List Bytes)
      → Socket.write_vectored s (map chunk (take io_max (b ∷ bs))) ≡ (s', ok 0)
      → flush_loop (suc fuel) s (b ∷ bs) ≡ some (s', b ∷ bs, err write_zero)
  unfolding flush_loop
  loop_stuck fuel s s' b bs e = rw (flush_loop, e, ap (λ (w : Socket × IoResult ℕ). w.0) e)

  loop_wrote :
      (fuel : ℕ) (s s' : Socket) (b : Bytes) (bs : List Bytes) (n : ℕ)
      → Socket.write_vectored s (map chunk (take io_max (b ∷ bs))) ≡ (s', ok (suc n))
      → flush_loop (suc fuel) s (b ∷ bs) ≡ flush_loop fuel s' (consume (suc n) (b ∷ bs))
  unfolding flush_loop
  loop_wrote fuel s s' b bs n e = rw (flush_loop, e, ap (λ (w : Socket × IoResult ℕ). w.0) e)

  loop_interrupted :
      (fuel : ℕ) (s s' : Socket) (b : Bytes) (bs : List Bytes) (k : ErrorKind)
      → Socket.write_vectored s (map chunk (take io_max (b ∷ bs))) ≡ (s', err k)
      → is_interrupted k ≡ true
      → flush_loop (suc fuel) s (b ∷ bs) ≡ flush_loop fuel s' (b ∷ bs)
  unfolding flush_loop
  loop_interrupted fuel s s' b bs k e cut =
      rw (flush_loop, e, cut, ap (λ (w : Socket × IoResult ℕ). w.0) e)

  loop_failed :
      (fuel : ℕ) (s s' : Socket) (b : Bytes) (bs : List Bytes) (k : ErrorKind)
      → Socket.write_vectored s (map chunk (take io_max (b ∷ bs))) ≡ (s', err k)
      → is_interrupted k ≡ false
      → flush_loop (suc fuel) s (b ∷ bs) ≡ some (s', b ∷ bs, err k)
  unfolding flush_loop
  loop_failed fuel s s' b bs k e other =
      rw (flush_loop, e, other, ap (λ (w : Socket × IoResult ℕ). w.0) e)

  flush_loop-Flushed :
      (fuel : ℕ) (s : Socket) (q : List Bytes) → work s q < fuel → Flushed s q (flush_loop fuel s q)
  unfolding flush_loop
  flush_loop-Flushed zero s q h = absurd (omega arith)
  flush_loop-Flushed (suc fuel) s [] h = record {
    after = s;
    left = [];
    res = ok tt;
    ended = refl;
    kept = refl;
    result = inl (refl, refl);
  }
  flush_loop-Flushed (suc fuel) s (b ∷ bs) h =
      let q = b ∷ bs in
      elim (answered (Socket.write_vectored s (map chunk (take io_max q)))) [
        | nothing s' e ↦ record {
          after = s';
          left = q;
          res = err write_zero;
          ended = loop_stuck fuel s s' b bs e;
          kept = ap (λ (x : List ℕ). x ++ queued q) (nothing_sent s s' q e);
          result = inr (write_zero, refl, refl);
        }
        | some_bytes s' n e ↦
            let (kept, less, count) = round_wrote s s' q n e in
            let rest = flush_loop-Flushed fuel s' (consume (suc n) q) (omega arith) in
            record {
              after = rest.after;
              left = rest.left;
              res = rest.res;
              ended = loop_wrote fuel s s' b bs n e ∙ rest.ended;
              kept = rest.kept ∙ kept;
              result = rest.result;
            }
        | failed s' k e ↦
            let (same, less) = round_failed s s' q k e in
            elim (Bool-cases (is_interrupted k)) [
              | inl cut ↦
                  let fewer = less cut in
                  let rest = flush_loop-Flushed fuel s' q (omega arith) in
                  record {
                    after = rest.after;
                    left = rest.left;
                    res = rest.res;
                    ended = loop_interrupted fuel s s' b bs k e cut ∙ rest.ended;
                    kept = rest.kept ∙ ap (λ (x : List ℕ). x ++ queued q) same;
                    result = rest.result;
                  }
              | inr other ↦ record {
                after = s';
                left = q;
                res = err k;
                ended = loop_failed fuel s s' b bs k e other;
                kept = ap (λ (x : List ℕ). x ++ queued q) same;
                result = inr (k, refl, other);
              }
            ]
      ]

  -- How a flush of the connection ends.
  abbrev Ends : Connection → Option (Connection × IoResult (Unit {0})) → Type 0
  Ends c out =
      (c' : Connection) × (r : IoResult (Unit {0})) × (out ≡ some (c', r))
      × (wire c' ≡ wire c)
      × ((unsent c' ≡ []) ⊎ ((k : ErrorKind) × (r ≡ err k) × (is_interrupted k ≡ false)))
      × (record c' { socket = c.socket; out_buffer = c.out_buffer } ≡ c)
      × ((s' : Socket) × (c'.socket ≡ some s'))

  after_flush_loop-Ends :
      (c : Connection) (s s' : Socket) (q left : List Bytes) (res : IoResult (Unit {0}))
      → c.socket ≡ some s
      → c.out_buffer ≡ some q
      → sent s' ++ queued left ≡ sent s ++ queued q
      → ((res ≡ ok tt) × (left ≡ []))
        ⊎ ((k : ErrorKind) × (res ≡ err k) × (is_interrupted k ≡ false))
      → Ends c (after_flush_loop c (some (s', left, res)))
  unfolding after_flush_loop
  after_flush_loop-Ends c s s' q left (ok u) at_s at_q kept result =
      let (s'', res') = Socket.flush s' in
      (
        record c { socket = some s''; out_buffer = some left },
        res',
        refl,
        ap (λ (x : List ℕ). x ++ queued left) (Sent.flush-sent s')
            ∙ kept
            ∙ sym (
                ap₂ ◌++◌ (ap sent_by at_s)
                  (ap (λ (x : Option (List Bytes)). queued (chunks x)) at_q)),
        elim result [
          | inl (fine, empty) ↦ inl (ap queued empty)
          | inr (k, wrong, other) ↦ absurd (ground arith)
        ],
        refl,
        (s'', refl),
      )
  after_flush_loop-Ends c s s' q left (err e) at_s at_q kept result = (
    record c { socket = some s'; out_buffer = some left },
    err e,
    refl,
    kept
        ∙ sym
            (ap₂ ◌++◌ (ap sent_by at_s) (ap (λ (x : Option (List Bytes)). queued (chunks x)) at_q)),
    elim result [ inl (wrong, empty) ↦ absurd (ground arith) | inr why ↦ inr why ],
    refl,
    (s', refl),
  )

  flush_queue-Ends :
      (fuel : ℕ) (c : Connection) (s : Socket) (ob : Option (List Bytes))
      → c.socket ≡ some s
      → c.out_buffer ≡ ob
      → work s (chunks ob) < fuel
      → Ends c (flush_queue fuel c s ob)
  unfolding flush_queue
  flush_queue-Ends fuel c s none at_s at_q enough =
      let (s', res) = Socket.flush s in
      (
        record c { socket = some s' },
        res,
        refl,
        ap (λ (x : List ℕ). x ++ unsent c) (Sent.flush-sent s ∙ sym (ap sent_by at_s)),
        inl (ap (λ (x : Option (List Bytes)). queued (chunks x)) at_q),
        refl,
        (s', refl),
      )
  flush_queue-Ends fuel c s (some q) at_s at_q enough =
      let done = flush_loop-Flushed fuel s q enough in
      rw done.ended
        (after_flush_loop-Ends c s done.after q done.left done.res at_s at_q done.kept done.result)

  -- `flush` on a connection with a socket ends, given more rounds than there are bytes waiting and
  -- interruptions to come. It loses, repeats and reorders nothing, and changes nothing but the socket
  -- and the queue; no byte waits any more, or the result is an error that is no interruption.
  pub flush_lem :
      (fuel : ℕ) (c : Connection) (s : Socket)
      → c.socket ≡ some s
      → work s (chunks c.out_buffer) < fuel
      → (c' : Connection) × (r : IoResult (Unit {0})) × (flush fuel c ≡ ret (some (c', r)))
        × (wire c' ≡ wire c)
        × ((unsent c' ≡ []) ⊎ ((k : ErrorKind) × (r ≡ err k) × (is_interrupted k ≡ false)))
        × (record c' { socket = c.socket; out_buffer = c.out_buffer } ≡ c)
  unfolding flush
  flush_lem fuel c s at_s enough =
      let (c', r, e, wire_kept, result, frame, still) =
        flush_queue-Ends fuel c s c.out_buffer at_s refl enough in
      (c', r, rw (at_s, e), wire_kept, result, frame)

  -- The connection keeps its handle and has a socket afterwards too.
  pub flush-open :
      (fuel : ℕ) (c : Connection) (s : Socket)
      → c.socket ≡ some s
      → work s (chunks c.out_buffer) < fuel
      → (c' : Connection) × (r : IoResult (Unit {0})) × (flush fuel c ≡ ret (some (c', r)))
        × (c'.gfd ≡ c.gfd)
        × ((s' : Socket) × (c'.socket ≡ some s'))
  unfolding flush
  flush-open fuel c s at_s enough =
      let (c', r, e, wire_kept, result, frame, still) =
        flush_queue-Ends fuel c s c.out_buffer at_s refl enough in
      (c', r, rw (at_s, e), ap (λ (d : Connection). d.gfd) frame, still)

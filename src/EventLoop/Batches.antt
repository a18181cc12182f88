-- ===== src/EventLoop/Batches.antt =====
-- The batches of `process_write` in src/event_loop.rs.
use rnet.Prelude.{
  ℕ, zero, suc, ◌+◌, ◌≤◌, ◌<◌, ◌≡◌, ◌⊎◌, inl, inr, refl, ap, ap₂, sym, ◌∙◌, true, false, List, [],
  ◌∷◌, ◌++◌, Option, some, map, length, take, arith, Bool-cases, leb, subst,
}
use rnet.Io.{ErrorKind, IoResult, ok, err, Run, ret, is_interrupted, is_would_block}
use rnet.Extern.Bytes.{BytesApi}
use rnet.Extern.Streams.{StreamApi}
use rnet.Codec.{CodecApi}
use rnet.Socket
use rnet.Socket.{Socket, sent}
use rnet.Connection.{Connection, chunks, queued}
use rnet.Connection.Output.{io_max, consume}
use rnet.Connection.Output.Wire.{wire, sent_by}
use rnet.Connection.Output.Flush.{
  work, round_wrote, round_failed, nothing_sent, answered, nothing, some_bytes, failed,
}
use rnet.EventLoop.{
  IoStatus, completed, yield, shutdown, closed, write_batch, after_batch, write_queue,
  process_write,
}

module _ ⦃bytes : BytesApi⦄ ⦃streams : StreamApi⦄ ⦃codecs : CodecApi⦄ where
  open bytes use {Bytes, chunk}

  -- The socket's last answer, to the front of the queue that is left.
  abbrev pub Answers : Socket → List Bytes → IoResult ℕ → Type 0
  Answers s' q res =
      (s : Socket) × (Socket.write_vectored s (map chunk (take io_max q)) ≡ (s', res))

  -- Why the loop stopped: nothing waits, or the socket would block; so many bytes were written that
  -- the batch is full; the socket took nothing, or failed by another error.
  abbrev pub Reason : ℕ → ℕ → List Bytes → Socket → List Bytes → IoStatus → Type 0
  Reason max bytes_written before s' q completed =
      (queued q ≡ []) ⊎ ((e : ErrorKind) × (is_would_block e ≡ true) × Answers s' q (err e))
  Reason max bytes_written before s' q yield =
      max + length (queued q) ≤ bytes_written + length (queued before)
  Reason max bytes_written before s' q shutdown = ⊥
  Reason max bytes_written before s' q (closed graceful) =
      (graceful ≡ false)
      × (Answers s' q (ok 0)
          ⊎ ((e : ErrorKind) × (is_would_block e ≡ false)
              × (is_interrupted e ≡ false)
              × Answers s' q (err e)))

  record Batch (max bytes_written : ℕ) (s : Socket) (q : List Bytes)
      (out : Option (Socket × List Bytes × IoStatus)) : Type 0 where
    after : Socket
    left : List Bytes
    status : IoStatus
    ended : out ≡ some (after, left, status)
    kept : sent after ++ queued left ≡ sent s ++ queued q
    reason : Reason max bytes_written q after left status

  -- A reason stays one when the bytes of an earlier round are counted again.
  earlier :
      (max b n : ℕ) (q q' left : List Bytes) (s' : Socket) (status : IoStatus)
      → length (queued q') + n ≡ length (queued q)
      → Reason max (b + n) q' s' left status
      → Reason max b q s' left status
  earlier max b n q q' left s' completed count reason = reason
  earlier max b n q q' left s' yield count reason = omega arith
  earlier max b n q q' left s' shutdown count reason = reason
  earlier max b n q q' left s' (closed graceful) count reason = reason

  -- The ways a round of the loop goes on.
  batch_stuck :
      (fuel max k : ℕ) (s s' : Socket) (b : Bytes) (bs : List Bytes)
      → leb max k ≡ false
      → Socket.write_vectored s (map chunk (take io_max (b ∷ bs))) ≡ (s', ok 0)
      → write_batch (suc fuel) max k s (b ∷ bs) ≡ some (s', b ∷ bs, closed false)
  unfolding write_batch
  batch_stuck fuel max k s s' b bs room e =
      rw (write_batch, room, e, ap (λ (w : Socket × IoResult ℕ). w.0) e)

  batch_wrote :
      (fuel max k : ℕ) (s s' : Socket) (b : Bytes) (bs : List Bytes) (n : ℕ)
      → leb max k ≡ false
      → Socket.write_vectored s (map chunk (take io_max (b ∷ bs))) ≡ (s', ok (suc n))
      → write_batch (suc fuel) max k s (b ∷ bs)
        ≡ write_batch fuel max (k + suc n) s' (consume (suc n) (b ∷ bs))
  unfolding write_batch
  batch_wrote fuel max k s s' b bs n room e =
      rw (write_batch, room, e, ap (λ (w : Socket × IoResult ℕ). w.0) e)

  batch_blocked :
      (fuel max k : ℕ) (s s' : Socket) (b : Bytes) (bs : List Bytes) (x : ErrorKind)
      → leb max k ≡ false
      → Socket.write_vectored s (map chunk (take io_max (b ∷ bs))) ≡ (s', err x)
      → is_would_block x ≡ true
      → write_batch (suc fuel) max k s (b ∷ bs) ≡ some (s', b ∷ bs, completed)
  unfolding write_batch
  batch_blocked fuel max k s s' b bs x room e blocks =
      rw (write_batch, room, e, blocks, ap (λ (w : Socket × IoResult ℕ). w.0) e)

  batch_interrupted :
      (fuel max k : ℕ) (s s' : Socket) (b : Bytes) (bs : List Bytes) (x : ErrorKind)
      → leb max k ≡ false
      → Socket.write_vectored s (map chunk (take io_max (b ∷ bs))) ≡ (s', err x)
      → is_would_block x ≡ false
      → is_interrupted x ≡ true
      → write_batch (suc fuel) max k s (b ∷ bs) ≡ write_batch fuel max k s' (b ∷ bs)
  unfolding write_batch
  batch_interrupted fuel max k s s' b bs x room e goes cut =
      rw (write_batch, room, e, goes, cut, ap (λ (w : Socket × IoResult ℕ). w.0) e)

  batch_failed :
      (fuel max k : ℕ) (s s' : Socket) (b : Bytes) (bs : List Bytes) (x : ErrorKind)
      → leb max k ≡ false
      → Socket.write_vectored s (map chunk (take io_max (b ∷ bs))) ≡ (s', err x)
      → is_would_block x ≡ false
      → is_interrupted x ≡ false
      → write_batch (suc fuel) max k s (b ∷ bs) ≡ some (s', b ∷ bs, closed false)
  unfolding write_batch
  batch_failed fuel max k s s' b bs x room e goes other =
      rw (write_batch, room, e, goes, other, ap (λ (w : Socket × IoResult ℕ). w.0) e)

  batch_full :
      (fuel max k : ℕ) (s : Socket) (b : Bytes) (bs : List Bytes)
      → leb max k ≡ true
      → write_batch (suc fuel) max k s (b ∷ bs) ≡ some (s, b ∷ bs, yield)
  unfolding write_batch
  batch_full fuel max k s b bs full = rw (write_batch, full)

  batch_done :
      (fuel max k : ℕ) (s : Socket) → write_batch (suc fuel) max k s [] ≡ some (s, [], completed)
  unfolding write_batch
  batch_done fuel max k s = refl

  batch_again :
      (fuel max k : ℕ) (s s' : Socket) (b : Bytes) (bs : List Bytes) (x : ErrorKind)
      → leb max k ≡ false
      → Socket.write_vectored s (map chunk (take io_max (b ∷ bs))) ≡ (s', err x)
      → is_would_block x ≡ false
      → is_interrupted x ≡ true
      → write_batch (suc fuel) max k s (b ∷ bs) ≡ write_batch fuel max (k + 0) s' (b ∷ bs)
  batch_again fuel max k s s' b bs x room e goes cut =
      batch_interrupted fuel max k s s' b bs x room e goes cut
      ∙ ap (λ (y : ℕ). write_batch fuel max y s' (b ∷ bs)) (omega arith)

  -- A round that ended the loop and sent nothing.
  stop :
      (max k : ℕ) (s s' : Socket) (q : List Bytes) (status : IoStatus)
      {out : Option (Socket × List Bytes × IoStatus)}
      → out ≡ some (s', q, status)
      → sent s' ≡ sent s
      → Reason max k q s' q status
      → Batch max k s q out
  stop max k s s' q status e same reason = record {
    after = s';
    left = q;
    status = status;
    ended = e;
    kept = ap (λ (x : List ℕ). x ++ queued q) same;
    reason = reason;
  }

  -- A round behind which the loop went on.
  go_on :
      (max k n : ℕ) (s s' : Socket) (q q' : List Bytes)
      {out out' : Option (Socket × List Bytes × IoStatus)}
      → out ≡ out'
      → sent s' ++ queued q' ≡ sent s ++ queued q
      → length (queued q') + n ≡ length (queued q)
      → Batch max (k + n) s' q' out'
      → Batch max k s q out
  go_on max k n s s' q q' e kept count rest = record {
    after = rest.after;
    left = rest.left;
    status = rest.status;
    ended = e ∙ rest.ended;
    kept = rest.kept ∙ kept;
    reason = earlier max k n q q' rest.left rest.after rest.status count rest.reason;
  }

  write_batch-Batch :
      (fuel max k : ℕ) (s : Socket) (q : List Bytes)
      → work s q < fuel
      → Batch max k s q (write_batch fuel max k s q)
  write_batch-Batch zero max k s q h = absurd (omega arith)
  write_batch-Batch (suc fuel) max k s [] h =
      stop max k s s [] completed (batch_done fuel max k s) refl (inl refl)
  write_batch-Batch (suc fuel) max k s (b ∷ bs) h =
      let q = b ∷ bs in
      elim (Bool-cases (leb max k)) [
        | inl full ↦ stop max k s s q yield (batch_full fuel max k s b bs full) refl (ground arith)
        | inr room ↦ elim (answered (Socket.write_vectored s (map chunk (take io_max q)))) [
          | nothing s' e ↦
              stop max k s s' q (closed false) (batch_stuck fuel max k s s' b bs room e)
                (nothing_sent s s' q e) (refl, inl (s, e))
          | some_bytes s' n e ↦
              let (kept, less, count) = round_wrote s s' q n e in
              go_on max k (suc n) s s' q (consume (suc n) q)
                (batch_wrote fuel max k s s' b bs n room e) kept count
                (write_batch-Batch fuel max (k + suc n) s' (consume (suc n) q) (omega arith))
          | failed s' x e ↦
              let (same, less) = round_failed s s' q x e in
              elim (Bool-cases (is_would_block x)) [
                | inl blocks ↦
                    stop max k s s' q completed (batch_blocked fuel max k s s' b bs x room e blocks)
                      same (inr (x, blocks, (s, e)))
                | inr goes ↦ elim (Bool-cases (is_interrupted x)) [
                  | inl cut ↦
                      let fewer = less cut in
                      go_on max k 0 s s' q q (batch_again fuel max k s s' b bs x room e goes cut)
                        (ap (λ (y : List ℕ). y ++ queued q) same) (omega arith)
                        (write_batch-Batch fuel max (k + 0) s' q (omega arith))
                  | inr other ↦
                      stop max k s s' q (closed false)
                        (batch_failed fuel max k s s' b bs x room e goes other) same
                        (refl, inr (x, goes, other, (s, e)))
                ]
              ]
        ]
      ]

  abbrev Ends : ℕ → Connection → Run (Option (Option Connection × IoStatus)) → Type 0
  Ends max c out =
      (c' : Connection) × (s' : Socket) × (status : IoStatus) × (out ≡ ret (some (some c', status)))
      × (c'.socket ≡ some s')
      × (wire c' ≡ wire c)
      × Reason max 0 (chunks c.out_buffer) s' (chunks c'.out_buffer) status
      × (record c' { socket = c.socket; out_buffer = c.out_buffer } ≡ c)

  write_queue-Ends :
      (fuel max : ℕ) (c : Connection) (s : Socket) (q : List Bytes)
      → c.socket ≡ some s
      → chunks c.out_buffer ≡ q
      → work s q < fuel
      → Ends max c (write_queue fuel max c q)
  unfolding write_queue after_batch
  write_queue-Ends fuel max c s [] at_s at_q enough =
      (c, s, completed, refl, at_s, refl, inl (ap queued at_q), refl)
  write_queue-Ends fuel max c s (b ∷ bs) at_s at_q enough =
      let done = write_batch-Batch fuel max 0 s (b ∷ bs) enough in
      (
        record c { socket = some done.after; out_buffer = some done.left },
        done.after,
        done.status,
        rw (at_s, done.ended),
        refl,
        done.kept ∙ sym (ap₂ ◌++◌ (ap sent_by at_s) (ap queued at_q)),
        subst (λ (q : List Bytes). Reason max 0 q done.after done.left done.status) (sym at_q)
            done.reason,
        refl,
      )

  -- `process_write` on a connection with a socket ends, given more rounds than there are bytes waiting
  -- and interruptions to come. It loses, repeats and reorders nothing, and changes nothing but
  -- the socket and the queue. It reports completion only if no byte waits or the socket would
  -- block; it yields only after it has sent a whole batch; it asks to close, not gracefully, only
  -- if the socket took nothing or failed otherwise; and it never asks to shut down.
  pub process_write_lem :
      (fuel max : ℕ) (c : Connection) (s : Socket)
      → c.socket ≡ some s
      → work s (chunks c.out_buffer) < fuel
      → (c' : Connection) × (s' : Socket) × (status : IoStatus) × (process_write fuel max (some c)
          ≡ ret (some (some c', status)))
        × (c'.socket ≡ some s')
        × (wire c' ≡ wire c)
        × Reason max 0 (chunks c.out_buffer) s' (chunks c'.out_buffer) status
        × (record c' { socket = c.socket; out_buffer = c.out_buffer } ≡ c)
  unfolding process_write
  process_write_lem fuel max c s at_s enough =
      write_queue-Ends fuel max c s (chunks c.out_buffer) at_s refl enough

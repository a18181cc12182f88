-- ===== src/EventLoop/Reading/Progress.antt =====
-- The loop of `process_read` in src/event_loop.rs: it ends, and by which rounds.
use rnet.Prelude.{
  ℕ, zero, suc, ◌+◌, ◌<◌, ◌≡◌, refl, inl, inr, ap, sym, ◌∙◌, Bool, true, false, List, [], ◌∷◌,
  Option, none, some, length, arith, Bool-cases, leb, subst, leb→le,
}
use rnet.Io.{ErrorKind, IoResult, ok, err, Run, ret, is_would_block}
use rnet.Extern.Bytes.{BytesApi}
use rnet.Extern.Streams.{StreamApi}
use rnet.Codec.{CodecApi}
use rnet.Socket
use rnet.Socket.{Socket}
use rnet.Connection.{Connection}
use rnet.EventLoop.{IoStatus, completed}
use rnet.Handler.{Action, no_action, close_it, shut_down}
use rnet.EventLoop.Reading.{handed, settle, settle_buffer, read_loop, in_slab, process_read}
use rnet.EventLoop.Reading.Rounds.{
  Received, nothing_read, one_more, Stops, batch_full, would_wait, read_failed, peer_ended,
  asked_close, asked_shutdown, KeepsSocket, loop_full, loop_waits, loop_fails, loop_ends,
  loop_goes_on, loop_closes, loop_shuts_down,
}

module _ ⦃bytes : BytesApi⦄ ⦃streams : StreamApi⦄ ⦃codecs : CodecApi⦄ where
  module _ {H : Type 0} (on_traffic : H → Connection → H × Connection × Action) where
    data Answer (w : Socket × IoResult (List ℕ)) : Type 0 where
      ended : (s' : Socket) → w ≡ (s', ok []) → Answer w
      brought : (s' : Socket) (b : ℕ) (bs : List ℕ) → w ≡ (s', ok (b ∷ bs)) → Answer w
      failed : (s' : Socket) (k : ErrorKind) → w ≡ (s', err k) → Answer w

    answer : (w : Socket × IoResult (List ℕ)) → Answer w
    answer (s', ok []) = ended s' refl
    answer (s', ok (b ∷ bs)) = brought s' b bs refl
    answer (s', err k) = failed s' k refl

    data Wish (w : H × Connection × Action) : Type 0 where
      to_go_on : (h' : H) (c' : Connection) → w ≡ (h', c', no_action) → Wish w
      to_close : (h' : H) (c' : Connection) → w ≡ (h', c', close_it) → Wish w
      to_shut_down : (h' : H) (c' : Connection) → w ≡ (h', c', shut_down) → Wish w

    wish : (w : H × Connection × Action) → Wish w
    wish (h', c', no_action) = to_go_on h' c' refl
    wish (h', c', close_it) = to_close h' c' refl
    wish (h', c', shut_down) = to_shut_down h' c' refl

    pub socket-settle : (c : Connection) → (settle c).socket ≡ c.socket
    unfolding settle
    socket-settle c = of c.io_buffer
      where
        of : (b : Option bytes.BytesMut) → (settle_buffer c b).socket ≡ c.socket
        of none = refl
        of (some b) = ground arith

    abbrev LoopEnds : ℕ → ℕ → ℕ → H → Connection → Run (Option (H × Connection × IoStatus)) → Type 0
    LoopEnds max size k h c out =
        (n : ℕ) × (h1 : H) × (c1 : Connection) × (h2 : H) × (c2 : Connection) × (status : IoStatus)
        × (out ≡ ret (some (h2, c2, status)))
        × Received on_traffic size h c n h1 c1
        × Stops on_traffic max size (k + n) h1 c1 h2 c2 status

    stop_now :
        (max size k : ℕ) {h h' : H} {c c' : Connection} {status : IoStatus}
        {out : Run (Option (H × Connection × IoStatus))}
        → out ≡ ret (some (h', c', status))
        → Stops on_traffic max size k h c h' c' status
        → LoopEnds max size k h c out
    stop_now max size k {h} {h'} {c} {c'} {status} e why =
        let same : k ≡ k + 0 = omega arith in
        (
          0,
          h,
          c,
          h',
          c',
          status,
          e,
          nothing_read,
          subst (λ (m : ℕ). Stops on_traffic max size m h c h' c' status) same why,
        )

    read_loop-LoopEnds :
        (fuel max size k : ℕ) (h : H) (c : Connection) (s : Socket)
        → KeepsSocket on_traffic
        → c.socket ≡ some s
        → 0 < fuel
        → max < k + fuel
        → LoopEnds max size k h c (read_loop on_traffic fuel max size k h c)
    read_loop-LoopEnds zero max size k h c s keeps at_s some_fuel enough = absurd (omega arith)
    read_loop-LoopEnds (suc fuel) max size k h c s keeps at_s some_fuel enough =
        elim (Bool-cases (leb max k)) [
          | inl full ↦
              stop_now max size k (loop_full on_traffic fuel max size k full)
                (batch_full (leb→le max k full))
          | inr room ↦ elim (answer (Socket.read s size)) [
            | ended s' e ↦
                stop_now max size k (loop_ends on_traffic fuel max size k c room at_s e)
                  (peer_ended at_s e)
            | failed s' x e ↦ elim (Bool-cases (is_would_block x)) [
              | inl blocks ↦
                  stop_now max size k (loop_waits on_traffic fuel max size k c room at_s e blocks)
                    (would_wait at_s e blocks)
              | inr goes ↦
                  stop_now max size k (loop_fails on_traffic fuel max size k c room at_s e goes)
                    (read_failed at_s e goes)
            ]
            | brought s' b bs e ↦ elim (wish (on_traffic h (handed c s' (b ∷ bs)))) [
              | to_close h' c' t ↦
                  stop_now max size k (loop_closes on_traffic fuel max size k c c' room at_s e t)
                    (asked_close at_s e t)
              | to_shut_down h' c' t ↦
                  stop_now max size k
                    (loop_shuts_down on_traffic fuel max size k c c' room at_s e t)
                    (asked_shutdown at_s e t)
              | to_go_on h' c' t ↦
                  let (s1, kept) = keeps h (handed c s' (b ∷ bs)) s' refl in
                  let at_s1 : (settle c').socket ≡ some s1 =
                    socket-settle c'
                    ∙ sym (ap (λ (w : H × Connection × Action). w.1.socket) t)
                    ∙ kept in
                  let less : k < max = ground arith in
                  let (n, h1, c1, h2, c2, status, out, steps, why) =
                    read_loop-LoopEnds fuel max size (k + length (b ∷ bs)) h' (settle c') s1 keeps
                      at_s1 (omega arith) (omega arith) in
                  let sum : (k + length (b ∷ bs)) + n ≡ k + (length (b ∷ bs) + n) = omega arith in
                  (
                    length (b ∷ bs) + n,
                    h1,
                    c1,
                    h2,
                    c2,
                    status,
                    loop_goes_on on_traffic fuel max size k c c' room at_s e t ∙ out,
                    one_more at_s e t steps,
                    subst (λ (m : ℕ). Stops on_traffic max size m h1 c1 h2 c2 status) sum why,
                  )
            ]
          ]
        ]

    process_read_open :
        (fuel max size : ℕ) (h h' : H) (c c' : Connection) (status : IoStatus)
        → c.closed ≡ false
        → read_loop on_traffic fuel max size 0 h c ≡ ret (some (h', c', status))
        → process_read on_traffic fuel max size h (some c) ≡ ret (some (h', some c', status))
    unfolding process_read in_slab
    process_read_open fuel max size h h' c c' status open_now out =
        pick c.closed open_now ∙ ap (in_slab on_traffic) out
      where
        pick :
            (b : Bool)
            → b ≡ false
            → ◌≡◌ {A = Run (Option (H × Option Connection × IoStatus))}
                (elim b [
                  | true ↦ ret (some (h, some c, completed))
                  | false ↦ in_slab on_traffic (read_loop on_traffic fuel max size 0 h c)
                ])
                (in_slab on_traffic (read_loop on_traffic fuel max size 0 h c))
        pick true wrong = absurd (ground arith)
        pick false right = refl

    -- `process_read` of an open connection with a socket ends within one round more than the bytes of a
    -- batch, and never panics, if the handler leaves the socket in place. It comes to rounds in which
    -- each piece that was read was handed to the handler, and stops for the reason that its status
    -- names.
    pub process_read_lem :
        (max size : ℕ) (h : H) (c : Connection) (s : Socket)
        → KeepsSocket on_traffic
        → c.socket ≡ some s
        → c.closed ≡ false
        → (n : ℕ) × (h1 : H) × (c1 : Connection) × (h2 : H) × (c2 : Connection)
          × (status : IoStatus) × (process_read on_traffic (suc max) max size h (some c)
              ≡ ret (some (h2, some c2, status)))
          × Received on_traffic size h c n h1 c1
          × Stops on_traffic max size n h1 c1 h2 c2 status
    process_read_lem max size h c s keeps at_s open_now =
        let (n, h1, c1, h2, c2, status, out, steps, why) =
          read_loop-LoopEnds (suc max) max size 0 h c s keeps at_s (omega arith) (omega arith) in
        let sum : 0 + n ≡ n = omega arith in
        (
          n,
          h1,
          c1,
          h2,
          c2,
          status,
          process_read_open (suc max) max size h h2 c c2 status open_now out,
          steps,
          subst (λ (m : ℕ). Stops on_traffic max size m h1 c1 h2 c2 status) sum why,
        )

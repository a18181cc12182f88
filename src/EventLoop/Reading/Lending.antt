-- ===== src/EventLoop/Reading/Lending.antt =====
-- What `process_read` of src/event_loop.rs leaves of a connection that is lent to the user's code.
use rnet.Prelude.{
  ℕ, suc, ◌≡◌, inl, inr, refl, subst, true, List, Option, none, some, arith, Bool-cases,
}
use rnet.Io.{ret}
use rnet.Extern.Bytes.{BytesApi}
use rnet.Extern.Streams.{StreamApi}
use rnet.Codec.{CodecApi}
use rnet.Socket.{Socket}
use rnet.Connection.{Connection}
use rnet.Handler.{Action, Keeps, Keeps-refl, Keeps-eq, Keeps-trans}
use rnet.EventLoop.{IoStatus, completed}
use rnet.EventLoop.Reading.{handed, settle, settle_buffer, process_read}
use rnet.EventLoop.Reading.Rounds.{
  Received, nothing_read, one_more, Stops, batch_full, would_wait, read_failed, peer_ended,
  asked_close, asked_shutdown,
}
use rnet.EventLoop.Reading.Progress.{socket-settle, process_read_lem}

module _ ⦃bytes : BytesApi⦄ ⦃streams : StreamApi⦄ ⦃codecs : CodecApi⦄ where
  module _ {H : Type 0} (on_traffic : H → Connection → H × Connection × Action)
      (lends : (h : H) (c : Connection) → Keeps c (on_traffic h c).1) where
    handed-Keeps :
        (c : Connection) (s s' : Socket) (bs : List ℕ)
        → c.socket ≡ some s
        → Keeps c (handed c s' bs)
    handed-Keeps c s s' bs at_s = record { same_gfd = refl; open_still = λ t at_t. (s', refl) }

    gfd-settle : (c : Connection) → (settle c).gfd ≡ c.gfd
    unfolding settle
    gfd-settle c = of c.io_buffer
      where
        of : (b : Option bytes.BytesMut) → (settle_buffer c b).gfd ≡ c.gfd
        of none = refl
        of (some b) = ground arith

    told-Keeps :
        {h h' : H} {c c' : Connection} {s s' : Socket} {bs : List ℕ} {a : Action}
        → c.socket ≡ some s
        → on_traffic h (handed c s' bs) ≡ (h', c', a)
        → Keeps c c'
    told-Keeps {h} {h'} {c} {c'} {s} {s'} {bs} at_s told =
        Keeps-trans c (handed c s' bs) c' (handed-Keeps c s s' bs at_s) (
          subst (λ (w : H × Connection × Action). Keeps (handed c s' bs) w.1) told
            (lends h (handed c s' bs)))

    Received-Keeps :
        {size n : ℕ} {h h' : H} {c c' : Connection}
        → Received on_traffic size h c n h' c'
        → Keeps c c'
    Received-Keeps {c = c} nothing_read = Keeps-refl c
    Received-Keeps {c = c} {c'} (one_more {c' = d} at_s e told rest) =
        Keeps-trans c d c' (told-Keeps at_s told) (
          Keeps-trans d (settle d) c'
            (Keeps-eq d (settle d) (gfd-settle d) (socket-settle on_traffic d))
            (Received-Keeps rest))

    replaced-Keeps : (c : Connection) (s : Socket) → Keeps c (record c { socket = some s })
    replaced-Keeps c s = record { same_gfd = refl; open_still = λ t at_t. (s, refl) }

    Stops-Keeps :
        {max size n : ℕ} {h h' : H} {c c' : Connection} {status : IoStatus}
        → Stops on_traffic max size n h c h' c' status
        → Keeps c c'
    Stops-Keeps {c = c} (batch_full full) = Keeps-refl c
    Stops-Keeps {c = c} (would_wait {s' = s'} at_s e blocks) = replaced-Keeps c s'
    Stops-Keeps {c = c} (read_failed {s' = s'} at_s e fails) = replaced-Keeps c s'
    Stops-Keeps {c = c} (peer_ended {s' = s'} at_s e) = replaced-Keeps c s'
    Stops-Keeps (asked_close at_s e told) = told-Keeps at_s told
    Stops-Keeps (asked_shutdown at_s e told) = told-Keeps at_s told

    process_read_shut :
        (max size : ℕ) (h : H) (c : Connection)
        → c.closed ≡ true
        → process_read on_traffic (suc max) max size h (some c) ≡ ret (some (h, some c, completed))
    unfolding process_read
    process_read_shut max size h c shut = simp (shut)

    -- The read half of an open connection neither panics nor takes its handle or socket.
    pub process_read-Keeps :
        (max size : ℕ) (h : H) (c : Connection) (s : Socket)
        → c.socket ≡ some s
        → (h' : H) × (c' : Connection) × (status : IoStatus) × (process_read on_traffic
              (suc max)
              max
              size
              h
              (some c)
            ≡ ret (some (h', some c', status)))
          × Keeps c c'
    process_read-Keeps max size h c s at_s = elim (Bool-cases c.closed) [
      | inl shut ↦ (h, c, completed, process_read_shut max size h c shut, Keeps-refl c)
      | inr open_now ↦
          let (n, h1, c1, h2, c2, status, e, received, stops) =
            process_read_lem on_traffic max size h c s (λ g d t at_t. (lends g d).open_still t at_t)
              at_s open_now in
          (h2, c2, status, e, Keeps-trans c c1 c2 (Received-Keeps received) (Stops-Keeps stops))
    ]

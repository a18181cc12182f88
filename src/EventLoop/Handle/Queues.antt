-- ===== src/EventLoop/Handle/Queues.antt =====
-- `trigger` of src/event_loop.rs and the two queues that it fills.
use rnet.Prelude.{
  ◌≤◌, ◌<◌, ◌≡◌, ◌≢◌, ◌⊎◌, inl, inr, refl, ap, sym, ◌∙◌, Bool, true, false, ◌&&◌, leb, [], ◌∷◌,
  ◌++◌, length, arith, if◌then◌else◌,
}
use rnet.Io.{IoResult, ok}
use rnet.Extern.Bytes.{BytesApi}
use rnet.Extern.Streams.{StreamApi}
use rnet.Extern.Channels.{ChannelApi}
use rnet.Extern.Polls.{WakerApi}
use rnet.Command.{Command, Priority, high, low, above}
use rnet.Poller
use rnet.EventLoop.Handle.{
  max_poll_event_cap, is_ok, Shared, send_common, send_urgent, enqueue, after_send, trigger,
}

above-high : (p : Priority) → above p high ≡ true → p ≢ high
above-high high e same = ground arith
above-high low e same = ground arith

is_high : (p : Priority) → above p high ≡ false → p ≡ high
is_high high e = refl
is_high low e = ground arith

module _ ⦃bytes : BytesApi⦄ ⦃streams : StreamApi⦄ ⦃channels : ChannelApi Command⦄
    ⦃wakers : WakerApi⦄ where
  open channels use {queue}

  module _ {U : Type 0} where
    -- Whether a command goes to the urgent queue: it has the highest priority, or fewer than 1024 wait
    -- there; or to the common one.
    abbrev pub IsUrgent : Shared U → Priority → Type 0
    IsUrgent h p = (p ≡ high) ⊎ (length (queue h.urgent) < 1024)

    abbrev pub IsCommon : Shared U → Priority → Type 0
    IsCommon h p = (p ≢ high) × (1024 ≤ length (queue h.urgent))

    -- The loop was woken, and `b` says whether that succeeded.
    abbrev pub Woken : Shared U → Shared U → Bool → Type 0
    Woken h h' b =
        let (w, res) = Poller.wake wakers.inner_wake h.waker in (h'.waker ≡ w) × (b ≡ is_ok res)

    -- What became of a command. If the channel of its queue takes it, it is the last there, the other
    -- queue is as it was, and the loop is woken. If that channel refuses it, the queues and the waker are
    -- as they were.
    pub data Queued (h : Shared U) (p : Priority) (command : Command) (h' : Shared U) (b : Bool)
        : Type 0 where
      as_urgent :
          IsUrgent h p
          → queue h'.urgent ≡ queue h.urgent ++ (command ∷ [])
          → queue h'.common ≡ queue h.common
          → Woken h h' b
          → Queued h p command h' b
      as_common :
          IsCommon h p
          → queue h'.urgent ≡ queue h.urgent
          → queue h'.common ≡ queue h.common ++ (command ∷ [])
          → Woken h h' b
          → Queued h p command h' b
      not_urgent :
          IsUrgent h p
          → (channels.send h.urgent command).1 ≡ false
          → queue h'.urgent ≡ queue h.urgent
          → queue h'.common ≡ queue h.common
          → h'.waker ≡ h.waker
          → b ≡ false
          → Queued h p command h' b
      not_common :
          IsCommon h p
          → (channels.send h.common command).1 ≡ false
          → queue h'.urgent ≡ queue h.urgent
          → queue h'.common ≡ queue h.common
          → h'.waker ≡ h.waker
          → b ≡ false
          → Queued h p command h' b

    Answers : Shared U → Priority → Command → Shared U × IoResult Bool → Type 0
    Answers h p command (h', r) =
        (h'.user ≡ h.user) × ((b : Bool) × (r ≡ ok b) × Queued h p command h' b)

    after_send_urgent :
        (h : Shared U) (p : Priority) (command : Command) (w : channels.Channel × Bool)
        → channels.send h.urgent command ≡ w
        → IsUrgent h p
        → Answers h p command (after_send (record h { urgent = w.0 }, w.1))
    unfolding after_send Answers
    after_send_urgent h p command (c, true) e urgent =
        let grown =
          channels.send-ok h.urgent command (ap (λ (w : channels.Channel × Bool). w.1) e) in
        let same = ap (λ (w : channels.Channel × Bool). queue w.0) e in
        (refl, (_, refl, as_urgent urgent (sym same ∙ grown) refl (refl, refl)))
    after_send_urgent h p command (c, false) e urgent =
        let lost = ap (λ (w : channels.Channel × Bool). w.1) e in
        let kept = channels.send-err h.urgent command lost in
        let same = ap (λ (w : channels.Channel × Bool). queue w.0) e in
        (refl, (false, refl, not_urgent urgent lost (sym same ∙ kept) refl refl refl))

    after_send_common :
        (h : Shared U) (p : Priority) (command : Command) (w : channels.Channel × Bool)
        → channels.send h.common command ≡ w
        → IsCommon h p
        → Answers h p command (after_send (record h { common = w.0 }, w.1))
    unfolding after_send Answers
    after_send_common h p command (c, true) e lower =
        let grown =
          channels.send-ok h.common command (ap (λ (w : channels.Channel × Bool). w.1) e) in
        let same = ap (λ (w : channels.Channel × Bool). queue w.0) e in
        (refl, (_, refl, as_common lower refl (sym same ∙ grown) (refl, refl)))
    after_send_common h p command (c, false) e lower =
        let lost = ap (λ (w : channels.Channel × Bool). w.1) e in
        let kept = channels.send-err h.common command lost in
        let same = ap (λ (w : channels.Channel × Bool). queue w.0) e in
        (refl, (false, refl, not_common lower lost refl (sym same ∙ kept) refl refl))

    -- `trigger` returns no error, and changes nothing but the queues and the waker. A command of the
    -- highest priority goes to the urgent queue, and so does any other while fewer than 1024 wait there;
    -- else it goes to the common one. If the channel takes it, it is the last of that queue, the other
    -- queue is as it was, and the loop is woken, whose success is returned. If the channel refuses it,
    -- the queues and the waker are as they were, and `false` is returned.
    pub trigger_lem :
        (h : Shared U) (p : Priority) (command : Command)
        → let (h', r) = trigger h p command in
          (h'.user ≡ h.user) × ((b : Bool) × (r ≡ ok b) × Queued h p command h' b)
    unfolding trigger enqueue Answers
    trigger_lem h p command =
        go (above p high) (leb max_poll_event_cap (channels.len h.urgent)) refl refl
      where
        go :
            (lower full : Bool)
            → above p high ≡ lower
            → leb max_poll_event_cap (channels.len h.urgent) ≡ full
            → Answers h p command (
                after_send (if lower && full then send_common h command else send_urgent h command))
        go true true e full =
            let size = channels.len-queue h.urgent in
            after_send_common h p command (channels.send h.common command) refl
              (above-high p e, ground arith)
        go true false e room =
            let size = channels.len-queue h.urgent in
            after_send_urgent h p command (channels.send h.urgent command) refl (inr (ground arith))
        go false full e room =
            after_send_urgent h p command (channels.send h.urgent command) refl (inl (is_high p e))

-- ===== src/EventLoop/Handle/Order.antt =====
-- In which order `process_command` of src/event_loop.rs takes the commands.
use rnet.Prelude.{
  ◌≡◌, ◌⊎◌, inl, inr, refl, ap, ap₂, sym, ◌∙◌, List, [], ◌∷◌, ◌++◌, Option, none, some,
}
use rnet.Extern.Bytes.{BytesApi}
use rnet.Extern.Streams.{StreamApi}
use rnet.Extern.Channels.{ChannelApi, Received, got, is_empty, is_disconnected}
use rnet.Extern.Polls.{WakerApi}
use rnet.Command.{Command}
use rnet.EventLoop.Handle.{Shared, try_common, next_command}

module _ ⦃bytes : BytesApi⦄ ⦃streams : StreamApi⦄ ⦃channels : ChannelApi Command⦄
    ⦃wakers : WakerApi⦄ where
  open channels use {Channel, queue, try_recv}

  module _ {U : Type 0} where
    -- What waits: the urgent commands, oldest first, and behind them the others.
    abbrev pub waiting : Shared U → List Command
    waiting h = queue h.urgent ++ queue h.common

    -- What the taking of a command does to those that wait.
    abbrev pub Takes : Shared U → Shared U → Option Command → Type 0
    Takes h h' (some command) = waiting h ≡ command ∷ waiting h'
    Takes h h' none =
        (queue h.urgent ≡ [])
        × ((queue h.common ≡ []) ⊎ ((try_recv h.urgent).1 ≡ is_disconnected))
        × (waiting h' ≡ waiting h)

    try_common-Takes :
        (h h0 : Shared U)
        → queue h0.urgent ≡ []
        → queue h.urgent ≡ []
        → h0.common ≡ h.common
        → Takes h0 (try_common h).0 (try_common h).1
    unfolding try_common
    try_common-Takes h h0 idle0 idle same = go (try_recv h.common).1 refl
      where
        go :
            (r : Received Command)
            → (try_recv h.common).1 ≡ r
            → Takes h0
                (record h { common = (try_recv h.common).0 })
                (elim r as (λ q. Option Command) [
                  | got x ↦ some x
                  | is_empty ↦ none
                  | is_disconnected ↦ none
                ])
        go (got x) e =
            ap₂ ◌++◌ idle0 (ap queue same ∙ channels.try_recv-got h.common x e)
            ∙ ap (λ (xs : List Command). x ∷ (xs ++ queue (try_recv h.common).0)) (sym idle)
        go is_empty e =
            let (before, after) = channels.try_recv-is_empty h.common e in
            (
              idle0,
              inl (ap queue same ∙ before),
              ap₂ ◌++◌ (idle ∙ sym idle0) (after ∙ sym (ap queue same ∙ before)),
            )
        go is_disconnected e =
            let (before, after) = channels.try_recv-is_disconnected h.common e in
            (
              idle0,
              inl (ap queue same ∙ before),
              ap₂ ◌++◌ (idle ∙ sym idle0) (after ∙ sym (ap queue same ∙ before)),
            )

    -- The two queues make up one: a command that is taken is the first of those that wait, the urgent
    -- ones before the others, and no other is lost. None is taken only if none waits, or if no urgent one
    -- waits and the urgent channel is disconnected; then those that wait are as before.
    pub next_command_lem : (h : Shared U) → Takes h (next_command h).0 (next_command h).1
    unfolding next_command
    next_command_lem h = go (try_recv h.urgent).1 refl
      where
        go :
            (r : Received Command)
            → (try_recv h.urgent).1 ≡ r
            → (let h' = record h { urgent = (try_recv h.urgent).0 } in
                let (h'', o) = elim r as (λ q. Shared U × Option Command) [
                  | got x ↦ (h', some x)
                  | is_empty ↦ try_common h'
                  | is_disconnected ↦ (h', none)
                ] in
                Takes h h'' o)
        go (got x) e =
            ap (λ (xs : List Command). xs ++ queue h.common) (channels.try_recv-got h.urgent x e)
        go is_empty e =
            let (before, after) = channels.try_recv-is_empty h.urgent e in
            try_common-Takes (record h { urgent = (try_recv h.urgent).0 }) h before after refl
        go is_disconnected e =
            let (before, after) = channels.try_recv-is_disconnected h.urgent e in
            (before, inr e, ap (λ (xs : List Command). xs ++ queue h.common) (after ∙ sym before))

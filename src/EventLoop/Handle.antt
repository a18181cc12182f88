-- ===== src/EventLoop/Handle.antt =====
-- `EventLoopHandle` of src/event_loop.rs: the queues and the waker of a loop, which the user's code
-- and other threads reach too. `conn_count` is kept with the loop, which alone writes it.
pub mod Queues
pub mod Order
use rnet.Prelude.{ℕ, Bool, true, false, ◌&&◌, leb, Option, some, none, if◌then◌else◌}
use rnet.Io.{IoResult, ok, err}
use rnet.Extern.Bytes.{BytesApi}
use rnet.Extern.Streams.{StreamApi}
use rnet.Extern.Channels.{ChannelApi, Received, got, is_empty, is_disconnected}
use rnet.Extern.Polls.{WakerApi}
use rnet.Command
use rnet.Command.{Command, Priority, high, above, priority}
use rnet.Poller
use rnet.Poller.{Waker}

abbrev pub max_poll_event_cap : ℕ
max_poll_event_cap = 1024

abbrev pub is_ok {ℓ} : {A : Type ℓ} → IoResult A → Bool
is_ok (ok a) = true
is_ok (err e) = false

module _ ⦃bytes : BytesApi⦄ ⦃streams : StreamApi⦄ ⦃channels : ChannelApi Command⦄
    ⦃wakers : WakerApi⦄ where
  -- `user` is the state of the user's code.
  pub record Shared (U : Type 0) : Type 0 where
    pub user : U
    pub urgent : channels.Channel
    pub common : channels.Channel
    pub waker : Waker wakers.inner_wake

  module _ {U : Type 0} where
    -- `send` on one of the two channels, with whether it succeeded.
    abbrev pub send_common : Shared U → Command → Shared U × Bool
    send_common h command =
        let (c, sent) = channels.send h.common command in (record h { common = c }, sent)

    abbrev pub send_urgent : Shared U → Command → Shared U × Bool
    send_urgent h command =
        let (c, sent) = channels.send h.urgent command in (record h { urgent = c }, sent)

    unfoldable pub enqueue : Shared U → Priority → Command → Shared U × Bool
    enqueue h p command =
        if above p high && leb max_poll_event_cap (channels.len h.urgent)
        then send_common h command
        else send_urgent h command

    -- What follows a `send`.
    unfoldable pub after_send : Shared U × Bool → Shared U × IoResult Bool
    after_send (h, false) = (h, ok false)
    after_send (h, true) =
        let (w, res) = Poller.wake wakers.inner_wake h.waker in
        (record h { waker = w }, ok (is_ok res))

    unfoldable pub trigger : Shared U → Priority → Command → Shared U × IoResult Bool
    unfolding enqueue after_send
    trigger h p command = after_send (enqueue h p command)

    -- `EventLoopHandle::shutdown`.
    unfoldable pub request_shutdown : Shared U → Shared U
    unfolding trigger
    request_shutdown h = (trigger h (priority Command.shutdown) Command.shutdown).0

    try_common : Shared U → Shared U × Option Command
    try_common h =
        let (c, r) = channels.try_recv h.common in
        (
          record h { common = c },
          elim r [ got x ↦ some x | is_empty ↦ none | is_disconnected ↦ none ],
        )

    -- The next command: an urgent one, or else, if the urgent queue is still connected, another.
    unfoldable pub next_command : Shared U → Shared U × Option Command
    unfolding try_common
    next_command h =
        let (c, r) = channels.try_recv h.urgent in
        let h' = record h { urgent = c } in
        elim r [ got x ↦ (h', some x) | is_empty ↦ try_common h' | is_disconnected ↦ (h', none) ]

-- ===== src/EventLoop/Running.antt =====
-- `run_loop` and `run` of src/event_loop.rs, over what the poll and the clock answer turn by turn.
pub mod Effect
mod Tests
use rnet.Prelude.{
  ℕ, ◌+◌, ◌-◌, Bool, true, false, ◌||◌, not, ◌==◌, leb, List, [], ◌∷◌, Option, none, some,
  if◌then◌else◌,
}
use rnet.Io.{ErrorKind, interrupted, IoResult, ok, err, Run, ret, panic, and_then, is_interrupted}
use rnet.Poller
use rnet.Poller.{wake_token, is_listener_token}
use rnet.Connection.{Connection}
use rnet.Handler.{Action, no_action, close_it, shut_down}
use rnet.EventLoop.Method.{Method, done, fails, continue, ◌>>=◌, ◌>>◌}
use rnet.EventLoop.Closing.{shutdown}
use rnet.EventLoop.Serving.{Event, when, process_io}
use rnet.EventLoop.Accepting.{accept_process}
use rnet.EventLoop.Commands.{process_command}
use rnet.Extern.Bytes.{BytesApi}
use rnet.Extern.Streams.{StreamApi}
use rnet.Extern.Channels.{ChannelApi}
use rnet.Extern.Polls.{PollApi, WakerApi}
use rnet.Extern.Slabs.{SlabApi}
use rnet.Extern.Listeners.{ListenerApi}
use rnet.Codec.{CodecApi}
use rnet.Command.{Command}
use rnet.Handler.{EventHandler}
use rnet.EventLoop.Handle.{Shared}
use rnet.EventLoop.State.{EventLoop}

-- One turn: the poll's answer to a timeout, in nanoseconds, and what the clock says when the timeout
-- is computed, when the tick is checked, and when the next one is set.
pub record Turn : Type 0 where
  pub polled : Option ℕ → IoResult (List (ℕ × Event))
  pub polled_at : ℕ
  pub checked_at : ℕ
  pub ticked_at : ℕ

-- Whether the loop goes on, with its next tick, or has returned.
pub data Progress : Type 0 where
  running : Option ℕ → Progress
  returned : Progress

unfoldable pub timeout : Bool → Option ℕ → ℕ → Option ℕ
timeout true next_tick now = some 0
timeout false none now = none
timeout false (some tick) now = if leb tick now then some 0 else some (tick - now)

-- `Instant::now() + delay`, which panics behind the latest instant that the clock can represent.
unfoldable pub tick_after : (latest : ℕ) → ℕ → ℕ → Run (Option ℕ)
tick_after latest delay now =
    if delay == 0
    then ret none
    else if leb (now + delay) latest
    then ret (some (now + delay))
    else panic

abbrev pub is_due : Option ℕ → ℕ → Bool
is_due none now = false
is_due (some tick) now = leb tick now

module _ ⦃bytes : BytesApi⦄ ⦃streams : StreamApi⦄ ⦃codecs : CodecApi⦄
    ⦃channels : ChannelApi Command⦄ ⦃wakers : WakerApi⦄ ⦃polls : PollApi⦄
    ⦃slabs : SlabApi Connection⦄ ⦃listening : ListenerApi⦄ {U : Type 0}
    ⦃handler : EventHandler (Shared U)⦄ where
  abbrev pub has_pending : Shared U → Bool
  has_pending h = not (channels.len h.urgent == 0) || not (channels.len h.common == 0)

  -- The wake-up is taken note of before the commands are run.
  abbrev pub rested : EventLoop U → EventLoop U
  rested l = record l {
    shared = record l.shared { waker = Poller.reset wakers.inner_wake l.shared.waker };
  }

  unfoldable pub dispatch : ℕ → Event → Method (EventLoop U) (Unit {0})
  dispatch token e =
      if token == wake_token
      then (λ l. process_command (rested l))
      else elim (is_listener_token token) [
        | some idx ↦ accept_process idx
        | none ↦ process_io token e
      ]

  unfoldable pub dispatch_all : List (ℕ × Event) → Method (EventLoop U) (Unit {0})
  dispatch_all [] = done
  dispatch_all ((token, e) ∷ events) = dispatch token e >> dispatch_all events

  abbrev pub ended_well :
      Run (EventLoop U × IoResult Progress) → Run (EventLoop U × IoResult Progress)
  ended_well (ret (l, err interrupted)) = ret (l, ok returned)
  ended_well out = out

  module _ (latest : ℕ) where
    after_tick : Action → ℕ → ℕ → Method (EventLoop U) (Option ℕ)
    after_tick no_action delay now l =
        and_then (tick_after latest delay now) (λ next_tick. ret (l, ok next_tick))
    after_tick close_it delay now l =
        and_then (tick_after latest delay now) (λ next_tick. ret (l, ok next_tick))
    after_tick shut_down delay now l = (shutdown >> (λ l'. ret (l', err interrupted))) l

    tick : Bool → Option ℕ → ℕ → Method (EventLoop U) (Option ℕ)
    tick false next_tick now l = ret (l, ok next_tick)
    tick true next_tick now l =
        let (shared, cs, delay, action) = handler.on_tick l.shared l.connections in
        after_tick action delay now (record l { shared = shared; connections = cs })

    after_poll :
        Turn → Bool → Option ℕ → IoResult (List (ℕ × Event)) → Method (EventLoop U) (Option ℕ)
    after_poll t pending next_tick (err e) l =
        if is_interrupted e then ret (l, ok next_tick) else ret (l, err e)
    after_poll t pending next_tick (ok events) l =
        (when pending process_command
            >> dispatch_all events
            >> tick (is_due next_tick t.checked_at) next_tick t.ticked_at)
          l

    -- One round of `loop`.
    unfoldable pub turn : Turn → Option ℕ → Method (EventLoop U) (Option ℕ)
    unfolding after_poll tick after_tick
    turn t next_tick l =
        let pending = has_pending l.shared in
        after_poll t pending next_tick (t.polled (timeout pending next_tick t.polled_at)) l

    unfoldable pub turns : List Turn → Option ℕ → Method (EventLoop U) Progress
    turns [] next_tick l = ret (l, ok (running next_tick))
    turns (t ∷ ts) next_tick l = (turn t next_tick >>= turns ts) l

    first_tick : Action → ℕ → ℕ → List Turn → Method (EventLoop U) Progress
    first_tick shut_down delay now ts l = (shutdown >> (λ l'. ret (l', ok returned))) l
    first_tick no_action delay now ts l =
        and_then (tick_after latest delay now) (λ next_tick. turns ts next_tick l)
    first_tick close_it delay now ts l =
        and_then (tick_after latest delay now) (λ next_tick. turns ts next_tick l)

    -- The first tick comes before the first turn.
    unfoldable pub run_loop : ℕ → List Turn → Method (EventLoop U) Progress
    unfolding first_tick
    run_loop now ts l =
        if l.options.ticker
        then (let (shared, cs, delay, action) = handler.on_tick l.shared l.connections in
            first_tick action delay now ts (record l { shared = shared; connections = cs }))
        else turns ts none l

    -- A loop that was asked to shut down has not failed.
    unfoldable pub run : ℕ → List Turn → Method (EventLoop U) Progress
    run now ts l = ended_well (run_loop now ts l)

-- ===== src/EventLoop/Starting.antt =====
-- `new`, `listener` and `build` of src/event_loop.rs. What mio answers to the creation of a poll and
-- of a waker are arguments, as are the counter of src/gfd.rs and how the program was built.
pub mod Effect
use rnet.Prelude.{ℕ, zero, suc, Bool, true, false, List, [], ◌∷◌, Option, none, some}
use rnet.Io.{IoResult, ok, err, Run, ret, panic, and_then}
use rnet.Poller
use rnet.Poller.{listener_token}
use rnet.Listener
use rnet.Listener.{Listener}
use rnet.Options.{Options}
use rnet.Connection.{Connection}
use rnet.EventLoop.Method.{Method, done, ◌>>=◌, ◌>>◌}
use rnet.Extern.Bytes.{BytesApi}
use rnet.Extern.Streams.{StreamApi}
use rnet.Extern.Channels.{ChannelApi}
use rnet.Extern.Polls.{PollApi, WakerApi}
use rnet.Extern.Slabs.{SlabApi}
use rnet.Extern.Listeners.{ListenerApi}
use rnet.Codec.{CodecApi}
use rnet.Command.{Command}
use rnet.EventLoop.Handle.{Shared}
use rnet.EventLoop.State.{EventLoop}

module _ ⦃bytes : BytesApi⦄ ⦃streams : StreamApi⦄ ⦃codecs : CodecApi⦄
    ⦃channels : ChannelApi Command⦄ ⦃wakers : WakerApi⦄ ⦃polls : PollApi⦄
    ⦃slabs : SlabApi Connection⦄ ⦃listening : ListenerApi⦄ {U : Type 0} where
  -- The loop's half of the user's state comes with the handler.
  made :
      ℕ
      → Options
      → U
      → channels.Channel
      → channels.Channel
      → ℕ
      → Bool
      → polls.Poll
      → wakers.MioWaker
      → EventLoop U
  made loop_id options user urgent common mono_seq debug_assertions poll waker = record {
    loop_id = loop_id;
    poll = poll;
    listeners = none;
    options = options;
    connections = slabs.empty;
    shared = record {
      user = user;
      urgent = urgent;
      common = common;
      waker = Poller.new wakers.inner_wake waker;
    };
    conn_count = 0;
    connection_pool = [];
    mono_seq = mono_seq;
    debug_assertions = debug_assertions;
  }

  unfoldable pub new :
      ℕ
      → Options
      → U
      → channels.Channel
      → channels.Channel
      → ℕ
      → Bool
      → IoResult polls.Poll
      → IoResult wakers.MioWaker
      → IoResult (EventLoop U)
  unfolding made
  new loop_id options user urgent common mono_seq debug_assertions (err e) waker = err e
  new loop_id options user urgent common mono_seq debug_assertions (ok poll) (err e) = err e
  new loop_id options user urgent common mono_seq debug_assertions (ok poll) (ok waker) =
      ok (made loop_id options user urgent common mono_seq debug_assertions poll waker)

  unfoldable pub with_listeners : EventLoop U → List Listener → EventLoop U
  with_listeners l xs = record l { listeners = some xs }

  -- The listener gets the token of its place.
  watch_listener : Listener → ℕ → Method (EventLoop U) (Unit {0})
  watch_listener x token l =
      let (p, res) = Poller.register l.poll (Listener.fd x.inner) token in
      ret (record l { poll = p }, res)

  unfoldable pub watch_from : Bool → ℕ → List Listener → Method (EventLoop U) (Unit {0})
  unfolding watch_listener
  watch_from overflow_checks i [] l = done l
  watch_from overflow_checks i (x ∷ xs) l =
      and_then (listener_token overflow_checks i)
        (λ token. (watch_listener x token >> watch_from overflow_checks (suc i) xs) l)

  watch_some : Bool → Option (List Listener) → Method (EventLoop U) (Unit {0})
  watch_some overflow_checks none = done
  watch_some overflow_checks (some xs) = watch_from overflow_checks 0 xs

  unfoldable pub build : Bool → Method (EventLoop U) (Unit {0})
  unfolding watch_some
  build overflow_checks l = watch_some overflow_checks l.listeners l

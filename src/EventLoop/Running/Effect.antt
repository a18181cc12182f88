-- ===== src/EventLoop/Running/Effect.antt =====
-- `run` of src/event_loop.rs keeps the loop's invariant, whatever happens in its turns.
use rnet.Prelude.{ℕ, ◌+◌, ◌≤◌, List, [], ◌∷◌}
use rnet.Connection.{Connection}
use rnet.EventLoop.Method.{Method}
use rnet.EventLoop.Running.{Turn}
use rnet.Extern.Bytes.{BytesApi}
use rnet.Extern.Streams.{StreamApi}
use rnet.Extern.Channels.{ChannelApi}
use rnet.Extern.Polls.{PollApi, WakerApi}
use rnet.Extern.Slabs.{SlabApi}
use rnet.Extern.Listeners.{ListenerApi}
use rnet.Codec.{CodecApi}
use rnet.Command.{Command}
use rnet.Handler.{EventHandler}
use rnet.EventLoop.Handle.{Shared}
use rnet.EventLoop.State.{EventLoop}

-- No turn comes so late that a tick `longest` later could not be represented.
abbrev pub AllBefore : (latest longest : ℕ) → List Turn → Type 0
AllBefore latest longest [] = Unit {0}
AllBefore latest longest (t ∷ ts) = (t.ticked_at + longest ≤ latest) × AllBefore latest longest ts

module _ ⦃bytes : BytesApi⦄ ⦃streams : StreamApi⦄ ⦃codecs : CodecApi⦄
    ⦃channels : ChannelApi Command⦄ ⦃wakers : WakerApi⦄ ⦃polls : PollApi⦄
    ⦃slabs : SlabApi Connection⦄ ⦃listening : ListenerApi⦄ {U : Type 0}
    ⦃handler : EventHandler (Shared U)⦄ where
  -- The handler was lent all connections.
  lent : EventLoop U → EventLoop U
  lent l =
      let w = handler.on_tick l.shared l.connections in record l { shared = w.0; connections = w.1 }

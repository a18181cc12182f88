-- ===== src/EventLoop/State.antt =====
-- The state of `EventLoop` of src/event_loop.rs.
use rnet.Prelude.{ℕ, Bool, List, Option}
use rnet.Extern.Bytes.{BytesApi}
use rnet.Extern.Streams.{StreamApi}
use rnet.Extern.Channels.{ChannelApi}
use rnet.Extern.Polls.{PollApi, WakerApi}
use rnet.Extern.Slabs.{SlabApi}
use rnet.Extern.Listeners.{ListenerApi}
use rnet.Codec.{CodecApi}
use rnet.Command.{Command}
use rnet.Options.{Options}
use rnet.Connection.{Connection}
use rnet.Listener.{Listener}
use rnet.EventLoop.Handle.{Shared}

module _ ⦃bytes : BytesApi⦄ ⦃streams : StreamApi⦄ ⦃codecs : CodecApi⦄
    ⦃channels : ChannelApi Command⦄ ⦃wakers : WakerApi⦄ ⦃polls : PollApi⦄
    ⦃slabs : SlabApi Connection⦄ ⦃listening : ListenerApi⦄ where
  -- `connection_pool` has the connection that was put in last in front. `mono_seq` is the counter
  -- of src/gfd.rs, and `debug_assertions` tells how the program was built.
  pub record EventLoop (U : Type 0) : Type 0 where
    pub loop_id : ℕ
    pub poll : polls.Poll
    pub listeners : Option (List Listener)
    pub options : Options
    pub connections : slabs.Slab
    pub shared : Shared U
    pub conn_count : ℕ
    pub connection_pool : List Connection
    pub mono_seq : ℕ
    pub debug_assertions : Bool

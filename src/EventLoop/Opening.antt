-- ===== src/EventLoop/Opening.antt =====
-- `register` of src/event_loop.rs: an accepted socket becomes a connection of the loop.
pub mod Effect
use rnet.Prelude.{ℕ, Bool, true, false, List, [], ◌∷◌, Option, none, some}
use rnet.Io.{ErrorKind, interrupted, IoResult, ok, err, Run, ret, panic}
use rnet.Gfd
use rnet.Gfd.{Gfd}
use rnet.Options.{Options, TcpSocketOpt, no_delay, delay}
use rnet.SocketAddr.{NetworkAddress}
use rnet.Poller
use rnet.Socket
use rnet.Socket.{Socket}
use rnet.Connection
use rnet.Connection.{Connection}
use rnet.Handler.{Action, no_action, close_it, shut_down}
use rnet.EventLoop.Method.{Method, fails, ◌>>=◌, ◌>>◌}
use rnet.EventLoop.Closing.{count_up, close_connection, shutdown}
use rnet.Extern.Bytes.{BytesApi}
use rnet.Extern.Streams.{StreamApi}
use rnet.Extern.Channels.{ChannelApi}
use rnet.Extern.Polls.{PollApi, WakerApi}
use rnet.Extern.Slabs.{SlabApi}
use rnet.Extern.Listeners.{ListenerApi}
use rnet.Codec.{CodecApi}
use rnet.Command.{Command}
use rnet.Handler.{EventHandler}
use rnet.EventLoop.Handle.{Shared}
use rnet.EventLoop.State.{EventLoop}

module _ ⦃bytes : BytesApi⦄ ⦃streams : StreamApi⦄ ⦃codecs : CodecApi⦄ where
  -- A failure to set the option is only printed.
  abbrev pub prepared : TcpSocketOpt → Socket → Socket
  prepared no_delay s = (Socket.set_nodelay s true).0
  prepared delay s = s

  -- A connection out of the pool, or a new one, and the pool that is left.
  unfoldable pub obtain :
      List Connection
      → Gfd
      → Socket
      → Options
      → NetworkAddress
      → NetworkAddress
      → ℕ
      → Connection × List Connection
  obtain [] g socket options local_addr peer_addr handle =
      (Connection.new g socket options local_addr peer_addr handle, [])
  obtain (c ∷ pool) g socket options local_addr peer_addr handle =
      (Connection.reset c g socket options local_addr peer_addr handle, pool)

module _ ⦃bytes : BytesApi⦄ ⦃streams : StreamApi⦄ ⦃codecs : CodecApi⦄
    ⦃channels : ChannelApi Command⦄ ⦃wakers : WakerApi⦄ ⦃polls : PollApi⦄
    ⦃slabs : SlabApi Connection⦄ ⦃listening : ListenerApi⦄ {U : Type 0}
    ⦃handler : EventHandler (Shared U)⦄ where
  -- `entry.insert(conn)`.
  unfoldable pub admit : Connection → EventLoop U → EventLoop U
  admit c l = record l {
    connections = slabs.insert l.connections c;
    conn_count = count_up l.conn_count;
  }

  opened : Action → ℕ → Connection → Method (EventLoop U) (Unit {0})
  opened close_it key c l = close_connection key true l
  opened no_action key c l = ret (admit c l, ok tt)
  opened shut_down key c l = (shutdown >> fails interrupted) l

  -- The connection is made and shown to the user's code.
  introduce :
      Socket
      → NetworkAddress
      → NetworkAddress
      → ℕ
      → Option (Gfd × ℕ)
      → Method (EventLoop U) (Unit {0})
  introduce socket local_addr peer_addr key none l = panic
  introduce socket local_addr peer_addr key (some (g, next)) l =
      let (c, pool) = obtain l.connection_pool g socket l.options local_addr peer_addr l.loop_id in
      let (shared, c', action) = handler.on_open l.shared c in
      opened action key c' (record l { shared = shared; connection_pool = pool; mono_seq = next })

  after_watch :
      Socket
      → NetworkAddress
      → NetworkAddress
      → ℕ
      → IoResult (Unit {0})
      → Method (EventLoop U) (Unit {0})
  after_watch socket local_addr peer_addr key (err e) l = ret (l, err e)
  after_watch socket local_addr peer_addr key (ok u) l =
      introduce socket local_addr peer_addr key
        (Gfd.new l.debug_assertions l.mono_seq (Socket.fd socket) l.loop_id key) l

  unfoldable pub register :
      Socket → NetworkAddress → NetworkAddress → Method (EventLoop U) (Unit {0})
  unfolding after_watch introduce opened
  register socket local_addr peer_addr l =
      let s = prepared l.options.tcp_no_delay socket in
      let key = slabs.vacant_key l.connections in
      let (p, res) = Poller.register l.poll (Socket.fd s) key in
      after_watch s local_addr peer_addr key res (record l { poll = p })

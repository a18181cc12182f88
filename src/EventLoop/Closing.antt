-- ===== src/EventLoop/Closing.antt =====
-- `reregister`, `close_connection` and `shutdown` of src/event_loop.rs.
pub mod Effect
pub mod Drain
pub mod Watching
use rnet.Prelude.{
  ℕ, suc, ◌+◌, ◌-◌, ◌%◌, ◌^◌, Bool, true, false, not, List, [], ◌∷◌, Option, none, some, length,
  if◌then◌else◌,
}
use rnet.Io.{ErrorKind, IoResult, ok, err, Run, ret, panic, and_then}
use rnet.Extern.Bytes.{BytesApi}
use rnet.Extern.Streams.{StreamApi}
use rnet.Extern.Channels.{ChannelApi}
use rnet.Extern.Polls.{PollApi, WakerApi}
use rnet.Extern.Slabs.{SlabApi}
use rnet.Extern.Listeners.{ListenerApi}
use rnet.Codec.{CodecApi}
use rnet.Command.{Command}
use rnet.Poller
use rnet.Socket
use rnet.Socket.{Socket, interruptions}
use rnet.Connection.{Connection, chunks, queued}
use rnet.Connection.Output.{nonempty, flush}
use rnet.Handler.{EventHandler}
use rnet.Listener
use rnet.Listener.{Listener}
use rnet.EventLoop.Handle.{Shared}
use rnet.EventLoop.Method.{Method, done, ignore, ◌>>=◌, ◌>>◌}
use rnet.EventLoop.State.{EventLoop}

-- `fetch_sub(1)` on a `usize`.
abbrev pub count_down : ℕ → ℕ
count_down n = (n + (2 ^ 64 - 1)) % 2 ^ 64

abbrev pub count_up : ℕ → ℕ
count_up n = (n + 1) % 2 ^ 64

module _ ⦃bytes : BytesApi⦄ ⦃streams : StreamApi⦄ ⦃codecs : CodecApi⦄ where
  -- What a `flush` of the connection can take: enough by `flush_lem`.
  abbrev pub rounds_of : Option Socket → List bytes.Bytes → ℕ
  rounds_of none q = 1
  rounds_of (some s) q = suc (length (queued q) + interruptions s)

  abbrev pub rounds : Connection → ℕ
  rounds c = rounds_of c.socket (chunks c.out_buffer)

  abbrev pub flushed_to : Option (Connection × IoResult (Unit {0})) → Run Connection
  flushed_to none = panic
  flushed_to (some (c, res)) = ret c

  -- A graceful close sends what waits, as far as that goes; any other drops it.
  unfoldable pub let_go : Bool → Connection → Run Connection
  let_go true c = and_then (flush (rounds c) c) flushed_to
  let_go false c = ret (record c { out_buffer = none })

module _ ⦃streams : StreamApi⦄ ⦃polls : PollApi⦄ ⦃listening : ListenerApi⦄ where
  -- `let _ = self.poll.deregister(listener);`
  unfoldable pub unwatch_all : polls.Poll → List Listener → polls.Poll
  unwatch_all p [] = p
  unwatch_all p (x ∷ xs) = unwatch_all (Poller.deregister p (Listener.fd x.inner)).0 xs

module _ ⦃bytes : BytesApi⦄ ⦃streams : StreamApi⦄ ⦃codecs : CodecApi⦄
    ⦃channels : ChannelApi Command⦄ ⦃wakers : WakerApi⦄ ⦃polls : PollApi⦄
    ⦃slabs : SlabApi Connection⦄ ⦃listening : ListenerApi⦄ {U : Type 0} where
  -- `poll.enable_write` and `poll.disable_write`.
  watch_socket : ℕ → Bool → Option Socket → Method (EventLoop U) (Unit {0})
  watch_socket key writable none l = panic
  watch_socket key writable (some s) l =
      let (p, res) =
        if writable
        then Poller.enable_write l.poll (Socket.fd s) key
        else Poller.disable_write l.poll (Socket.fd s) key in
      ret (record l { poll = p }, res)

  watch : ℕ → Option Connection → Method (EventLoop U) (Unit {0})
  watch key none = done
  watch key (some c) = watch_socket key (nonempty (chunks c.out_buffer)) c.socket

  unfoldable pub reregister : ℕ → Method (EventLoop U) (Unit {0})
  unfolding watch watch_socket
  reregister key l = watch key (slabs.get l.connections key) l

  -- The entry goes into the pool, without its socket.
  unfoldable pub retire : ℕ → Connection → EventLoop U → EventLoop U
  retire key c l = record l {
    connections = slabs.remove l.connections key;
    connection_pool = record c { socket = none } ∷ l.connection_pool;
    conn_count = count_down l.conn_count;
  }

  unwatch : ℕ → Connection → Option Socket → Method (EventLoop U) (Unit {0})
  unwatch key c none l = ret (retire key c l, ok tt)
  unwatch key c (some s) l =
      let (p, res) = Poller.deregister l.poll (Socket.fd s) in
      let l' = record l { poll = p } in
      elim res [ ok u ↦ ret (retire key c l', ok tt) | err e ↦ ret (l', err e) ]

  module _ ⦃handler : EventHandler (Shared U)⦄ where
    -- The user's code has the last word, then the entry goes.
    tell_close : ℕ → Connection → Method (EventLoop U) (Unit {0})
    tell_close key c l =
        let (shared, c', action) = handler.on_close l.shared c in
        unwatch key c' c'.socket
          (record l { shared = shared; connections = slabs.put l.connections key c' })

    close_found : ℕ → Bool → Option Connection → Method (EventLoop U) (Unit {0})
    close_found key graceful none l = ret (l, ok tt)
    close_found key graceful (some c) l = and_then (let_go graceful c) (λ c'. tell_close key c' l)

    unfoldable pub close_connection : ℕ → Bool → Method (EventLoop U) (Unit {0})
    unfolding close_found tell_close unwatch
    close_connection key graceful l = close_found key graceful (slabs.get l.connections key) l

    unfoldable pub close_all : List ℕ → Method (EventLoop U) (Unit {0})
    close_all [] = done
    close_all (key ∷ keys) = ignore (close_connection key true) >> close_all keys

    unfoldable pub drop_listeners : Option (List Listener) → EventLoop U → EventLoop U
    drop_listeners none l = l
    drop_listeners (some xs) l = record l { listeners = none; poll = unwatch_all l.poll xs }

    unfoldable pub shutdown : Method (EventLoop U) (Unit {0})
    unfolding drop_listeners unwatch_all close_all
    shutdown l = let l' = drop_listeners l.listeners l in close_all (slabs.keys l'.connections) l'

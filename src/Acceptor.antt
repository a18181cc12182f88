-- ===== src/Acceptor.antt =====
-- src/acceptor.rs: accepted connections are spread over the event loops. A loop's queue, waker and
-- count of connections are reached through its handle.
pub mod Spread
pub mod Running
mod Tests
use rnet.Prelude.{
  ℕ, zero, suc, Bool, true, false, List, [], ◌∷◌, Option, none, some, map, get_elem?,
}
use rnet.Io.{IoResult, ok, err, Run, ret, panic, and_then}
use rnet.Extern.Bytes.{BytesApi}
use rnet.Extern.Streams.{StreamApi}
use rnet.Extern.Channels.{ChannelApi}
use rnet.Extern.Polls.{WakerApi}
use rnet.Extern.Listeners.{ListenerApi}
use rnet.SocketAddr.{NetworkAddress}
use rnet.Socket.{Socket}
use rnet.Command
use rnet.Command.{Command}
use rnet.Poller
use rnet.Poller.{Waker}
use rnet.Balancer.{Balancer, select}
use rnet.Listener
use rnet.Listener.{Listener, pending}
use rnet.EventLoop.Accepting.{set_nth}

module _ ⦃bytes : BytesApi⦄ ⦃streams : StreamApi⦄ ⦃channels : ChannelApi Command⦄
    ⦃wakers : WakerApi⦄ ⦃listening : ListenerApi⦄ where
  -- `EventLoopHandle`, seen from another thread.
  pub record Worker : Type 0 where
    pub urgent_sender : channels.Channel
    pub waker : Waker wakers.inner_wake
    pub conn_count : ℕ

  -- The handle that the engine keeps shares `waker` and `is_running`.
  pub record Acceptor : Type 0 where
    pub listeners : List Listener
    pub workers : List Worker
    pub balancer : Balancer
    pub waker : Waker wakers.inner_wake
    pub is_running : Bool

  unfoldable pub new : List Listener → List Worker → Balancer → wakers.MioWaker → Acceptor
  new listeners workers balancer waker = record {
    listeners = listeners;
    workers = workers;
    balancer = balancer;
    waker = Poller.new wakers.inner_wake waker;
    is_running = true;
  }

  -- `AcceptorHandle::shutdown`.
  unfoldable pub stop : Acceptor → Acceptor
  stop a = record a { is_running = false; waker = (Poller.wake wakers.inner_wake a.waker).0 }

  -- A worker is woken only if the command was sent.
  abbrev pub after_sent : Worker → channels.Channel × Bool → Worker
  after_sent w (c, true) = record w {
    urgent_sender = c;
    waker = (Poller.wake wakers.inner_wake w.waker).0;
  }
  after_sent w (c, false) = record w { urgent_sender = c }

  unfoldable pub give : Worker → Command → Worker
  give w command = after_sent w (channels.send w.urgent_sender command)

  abbrev pub given : List Worker → ℕ → Option Worker → Command → List Worker
  given ws idx none command = ws
  given ws idx (some w) command = set_nth ws idx (give w command)

  -- The balancer looks at the counts.
  unfoldable pub assign : Acceptor → Command → Acceptor
  assign a command =
      let (idx, balancer) = select a.balancer (map (λ (w : Worker). w.conn_count) a.workers) in
      record a {
        balancer = balancer;
        workers = given a.workers idx (get_elem? a.workers idx) command;
      }

  after_accept :
      (Acceptor → Listener → Run (Acceptor × Listener))
      → NetworkAddress
      → Acceptor
      → Listener
      → IoResult (Socket × NetworkAddress)
      → Run (Acceptor × Listener)
  after_accept later local_addr a x (err e) = ret (a, x)
  after_accept later local_addr a x (ok (socket, peer_addr)) =
      later (assign a (Command.register socket local_addr peer_addr)) x

  -- The loop over `accept`.
  unfoldable pub accept_all : ℕ → NetworkAddress → Acceptor → Listener → Run (Acceptor × Listener)
  unfolding after_accept
  accept_all zero local_addr a x = panic
  accept_all (suc fuel) local_addr a x =
      let (x', res) = Listener.accept x in
      after_accept (accept_all fuel local_addr) local_addr a x' res

  accept_from : ℕ → Listener → Acceptor → IoResult NetworkAddress → Run Acceptor
  accept_from index x a (err e) = ret a
  accept_from index x a (ok local_addr) =
      and_then (accept_all (suc (pending x.inner)) local_addr a x)
        (λ (a', x'). ret (record a' { listeners = set_nth a'.listeners index x' }))

  accept_indexed : ℕ → Acceptor → Option Listener → Run Acceptor
  accept_indexed index a none = panic
  accept_indexed index a (some x) = accept_from index x a (Listener.local_addr x)

  -- An index out of range panics.
  unfoldable pub accept_loop : ℕ → Acceptor → Run Acceptor
  unfolding accept_indexed accept_from
  accept_loop index a = accept_indexed index a (get_elem? a.listeners index)

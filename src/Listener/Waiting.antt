-- ===== src/Listener/Waiting.antt =====
-- `accept` of src/listener.rs takes a connection that waited.
use rnet.Prelude.{ℕ, ◌<◌, ◌≡◌, refl, List, Option, arith}
use rnet.Io.{IoResult, ok, err}
use rnet.SocketAddr.{NetworkAddress, SocketAddr}
use rnet.Socket.{Socket}
use rnet.Listener.{Listener, ListenerInner, tcp, unix, accept_inner, accept, peer_of, pending}
use rnet.Extern.Streams.{StreamApi}
use rnet.Extern.Listeners.{ListenerApi}

module _ ⦃streams : StreamApi⦄ ⦃listeners : ListenerApi⦄ where
  pending-accept_inner :
      (x : ListenerInner) (s : Socket) (a : NetworkAddress)
      → (accept_inner x).1 ≡ ok (s, a)
      → pending (accept_inner x).0 < pending x
  unfolding accept_inner
  pending-accept_inner (tcp l) s a e = go (listeners.tcp_accept l).1 refl e
    where
      go :
          (res : IoResult (streams.Stream × SocketAddr))
          → (listeners.tcp_accept l).1 ≡ res
          → ◌≡◌ {A = IoResult (Socket × NetworkAddress)}
              (elim res [ ok (t, b) ↦ ok (Socket.tcp t, NetworkAddress.tcp b) | err k ↦ err k ])
              (ok (s, a))
          → listeners.tcp_pending (listeners.tcp_accept l).0 < listeners.tcp_pending l
      go (ok (t, b)) at h = listeners.tcp_accept-pending l t b at
      go (err k) at h = ground arith
  pending-accept_inner (unix l) s a e = go (listeners.unix_accept l).1 refl e
    where
      go :
          (res : IoResult (streams.Stream × Option (List ℕ)))
          → (listeners.unix_accept l).1 ≡ res
          → ◌≡◌ {A = IoResult (Socket × NetworkAddress)}
              (elim res [ ok (t, path) ↦ ok (Socket.unix t, peer_of path) | err k ↦ err k ])
              (ok (s, a))
          → listeners.unix_pending (listeners.unix_accept l).0 < listeners.unix_pending l
      go (ok (t, path)) at h = listeners.unix_accept-pending l t path at
      go (err k) at h = ground arith

  pub pending-accept :
      (x : Listener) (s : Socket) (a : NetworkAddress)
      → (accept x).1 ≡ ok (s, a)
      → pending (accept x).0.inner < pending x.inner
  unfolding accept
  pending-accept x s a e = pending-accept_inner x.inner s a e

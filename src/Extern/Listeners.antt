-- ===== src/Extern/Listeners.antt =====
-- The listening sockets of `mio::net`.
use rnet.Prelude.{ℕ, ◌<◌, ◌≡◌, List, Option}
use rnet.Prelude.Int.{ℤ}
use rnet.Io.{IoResult, ok}
use rnet.SocketAddr.{SocketAddr}
use rnet.Extern.Streams.{StreamApi}

-- `pending` bounds the connections that a run of `accept` can still take before it would block: an
-- accepted one lowers it. The peer of a Unix stream is given by `as_pathname`.
pub record ListenerApi ⦃streams : StreamApi⦄ : Type 1 where
  pub TcpListener : Type 0
  pub UnixListener : Type 0
  pub tcp_fd : TcpListener → ℤ
  pub unix_fd : UnixListener → ℤ
  pub tcp_local_addr : TcpListener → IoResult SocketAddr
  pub unix_local_addr : UnixListener → IoResult (Option (List ℕ))
  pub tcp_accept : TcpListener → TcpListener × IoResult (streams.Stream × SocketAddr)
  pub unix_accept : UnixListener → UnixListener × IoResult (streams.Stream × Option (List ℕ))
  pub tcp_pending : TcpListener → ℕ
  pub unix_pending : UnixListener → ℕ
  pub tcp_accept-pending :
      (l : TcpListener) (s : streams.Stream) (a : SocketAddr)
      → (tcp_accept l).1 ≡ ok (s, a)
      → tcp_pending (tcp_accept l).0 < tcp_pending l
  pub unix_accept-pending :
      (l : UnixListener) (s : streams.Stream) (a : Option (List ℕ))
      → (unix_accept l).1 ≡ ok (s, a)
      → unix_pending (unix_accept l).0 < unix_pending l

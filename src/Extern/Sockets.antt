-- ===== src/Extern/Sockets.antt =====
-- A socket of the crate `socket2` that is made ready to listen, and the calls on it.
use rnet.Prelude.{ℕ, ◌≡◌, Bool, List, [], ◌∷◌, ◌++◌}
use rnet.Prelude.Int.{ℤ}
use rnet.Io.{IoResult, ok}
use rnet.SocketAddr.{NetworkAddress}
use rnet.Extern.Streams.{StreamApi}
use rnet.Extern.Listeners.{ListenerApi}

pub data Domain : Type 0 where
  ipv4 ipv6 unix : Domain

-- The calls that src/listener.rs makes, with their arguments. Durations are numbers.
pub data Call : Type 0 where
  set_reuse_address set_reuse_port set_nonblocking set_tcp_nodelay set_keepalive : Bool → Call
  set_recv_buffer_size set_send_buffer_size : ℕ → Call
  bind_device : List ℕ → Call
  bind : NetworkAddress → Call
  listen : ℤ → Call
  set_tcp_keepalive : (time interval retries : ℕ) → Call

-- `unix_addr` is `SockAddr::unix`, which fails on a path that no address can hold. `calls` is what has succeeded on the socket, in order. `remove_file` is that of the file system,
-- between the calls.
pub record SocketApi ⦃streams : StreamApi⦄ ⦃listening : ListenerApi⦄ : Type 1 where
  pub OsSocket : Type 0
  pub calls : OsSocket → List Call
  pub new : Domain → IoResult OsSocket
  pub unix_addr : List ℕ → IoResult (Unit {0})
  pub call : OsSocket → Call → OsSocket × IoResult (Unit {0})
  pub remove_file : OsSocket → List ℕ → OsSocket
  pub into_tcp : OsSocket → listening.TcpListener
  pub into_unix : OsSocket → listening.UnixListener
  pub calls-new : (d : Domain) (s : OsSocket) → new d ≡ ok s → calls s ≡ []
  pub call-ok :
      (s : OsSocket) (c : Call) → (call s c).1 ≡ ok tt → calls (call s c).0 ≡ calls s ++ (c ∷ [])
  pub calls-remove_file : (s : OsSocket) (path : List ℕ) → calls (remove_file s path) ≡ calls s

-- ===== src/Listener/Binding.antt =====
-- `bind` of src/listener.rs: which calls are made on a new socket, and in which order, on Linux.
pub mod Asked
pub mod Order
use rnet.Prelude.{
  ℕ, ◌/◌, Bool, true, false, not, ltb, List, [], ◌∷◌, ◌++◌, Option, none, some, if◌then◌else◌,
}
use rnet.Prelude.Int.{ℤ, pos, negsuc}
use rnet.Prelude.Text.{is_empty}
use rnet.Io.{IoResult, ok, err}
use rnet.SocketAddr.{NetworkAddress, SocketAddr, Ip, v4, v6}
use rnet.Options.{Options, TcpSocketOpt, no_delay, delay}
use rnet.Extern.Streams.{StreamApi}
use rnet.Extern.Listeners.{ListenerApi}
use rnet.Extern.Sockets
use rnet.Extern.Sockets.{Call, Domain, SocketApi}
use rnet.Listener
use rnet.Listener.{Listener}

-- Above 65535.
abbrev pub above_limit : ℤ → Bool
above_limit (pos n) = ltb 65535 n
above_limit (negsuc n) = false

-- `get_max_listen_backlog`, with what the file under `/proc` says as an `i32`.
unfoldable pub get_max_listen_backlog : Option ℤ → ℤ
get_max_listen_backlog none = pos 128
get_max_listen_backlog (some n) = if above_limit n then pos 65535 else n

abbrev pub if_set : Bool → Call → List Call
if_set true c = c ∷ []
if_set false c = []

-- `configure_socket`.
unfoldable pub configure_socket : Options → List Call
configure_socket options =
    if_set options.reuse_addr (Sockets.set_reuse_address true)
    ++ if_set options.reuse_port (Sockets.set_reuse_port true)
    ++ if_set (ltb 0 options.socket_recv_buffer)
        (Sockets.set_recv_buffer_size options.socket_recv_buffer)
    ++ if_set (ltb 0 options.socket_send_buffer)
        (Sockets.set_send_buffer_size options.socket_send_buffer)
    ++ if_set (not (is_empty options.bind_to_device)) (Sockets.bind_device options.bind_to_device)

abbrev pub domain_of : Ip → Domain
domain_of (v4 n) = Sockets.ipv4
domain_of (v6 n flowinfo scope_id) = Sockets.ipv6

abbrev pub unwrap_or : Option ℕ → ℕ → ℕ
unwrap_or none n = n
unwrap_or (some m) n = m

-- The interval is a fifth of the time unless it is set.
abbrev pub keepalive_calls : Option ℕ → Options → List Call
keepalive_calls none options = []
keepalive_calls (some time) options =
    Sockets.set_keepalive true
    ∷ Sockets.set_tcp_keepalive time (unwrap_or options.tcp_keep_interval (time / 5))
        (unwrap_or options.tcp_keep_count 5)
    ∷ []

abbrev pub is_no_delay : TcpSocketOpt → Bool
is_no_delay no_delay = true
is_no_delay delay = false

-- What `create_mio_tcp_listener` calls.
unfoldable pub tcp_calls : Options → SocketAddr → ℤ → List Call
tcp_calls options a backlog =
    configure_socket options
    ++ Sockets.bind (NetworkAddress.tcp a)
      ∷ Sockets.listen backlog
      ∷ Sockets.set_nonblocking true
      ∷ (if_set (is_no_delay options.tcp_no_delay) (Sockets.set_tcp_nodelay true)
          ++ keepalive_calls options.tcp_keepalive options)

-- What `create_mio_unix_listener` calls once the file that stood in the way is gone.
unfoldable pub unix_calls : List ℕ → ℤ → List Call
unix_calls path backlog =
    Sockets.bind (NetworkAddress.unix path)
    ∷ Sockets.listen backlog
    ∷ Sockets.set_nonblocking true
    ∷ []

module _ ⦃streams : StreamApi⦄ ⦃listening : ListenerApi⦄ ⦃sockets : SocketApi⦄ where
  open sockets use {OsSocket}

  -- One call after the other, until one fails.
  unfoldable pub perform : List Call → OsSocket → IoResult OsSocket
  perform [] s = ok s
  perform (c ∷ cs) s =
      let (s', res) = sockets.call s c in elim res [ ok u ↦ perform cs s' | err e ↦ err e ]

  abbrev pub then_do {ℓ κ} : {A : Type ℓ} {B : Type κ} → IoResult A → (A → IoResult B) → IoResult B
  then_do (ok a) f = f a
  then_do (err e) f = err e

  unfoldable pub create_mio_tcp_listener : SocketAddr → Options → ℤ → IoResult OsSocket
  create_mio_tcp_listener a options backlog =
      then_do (sockets.new (domain_of a.ip)) (perform (tcp_calls options a backlog))

  -- A file that is there already is removed, if it can be.
  unfoldable pub create_mio_unix_listener :
      (exists : Bool) → List ℕ → Options → ℤ → IoResult OsSocket
  create_mio_unix_listener exists path options backlog = then_do (sockets.new Sockets.unix) (λ s.
      then_do (perform (configure_socket options) s) (λ s'. then_do (sockets.unix_addr path) (λ u.
        perform (unix_calls path backlog) (if exists then sockets.remove_file s' path else s'))))

  -- The address is the one that was really bound.
  unfoldable pub bind :
      (exists : Bool) (somaxconn : Option ℤ) → NetworkAddress → Options → IoResult Listener
  bind exists somaxconn (NetworkAddress.tcp a) options =
      then_do (create_mio_tcp_listener a options (get_max_listen_backlog somaxconn)) (λ s.
        then_do (listening.tcp_local_addr (sockets.into_tcp s)) (λ local_addr. ok (record {
          inner = Listener.tcp (sockets.into_tcp s);
          addr = NetworkAddress.tcp local_addr;
          options = options;
        })))
  bind exists somaxconn (NetworkAddress.unix path) options =
      then_do (create_mio_unix_listener exists path options (get_max_listen_backlog somaxconn))
        (λ s. ok (record {
          inner = Listener.unix (sockets.into_unix s);
          addr = NetworkAddress.unix path;
          options = options;
        }))

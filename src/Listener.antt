-- ===== src/Listener.antt =====
-- src/listener.rs: a bound listener, and the connections that it accepts.
pub mod Waiting
pub mod Binding
mod Tests
use rnet.Prelude.{ℕ, ◌<◌, ◌≡◌, List, Option, none, some}
use rnet.Prelude.Int.{ℤ}
use rnet.Prelude.Text.{codes}
use rnet.Io.{IoResult, ok, err}
use rnet.SocketAddr
use rnet.SocketAddr.{NetworkAddress, SocketAddr, Ip, v4, v6, Parsed, kind, try_from_unix}
use rnet.Options.{Options}
use rnet.Socket
use rnet.Socket.{Socket}
use rnet.Extern.Streams.{StreamApi}
use rnet.Extern.Listeners.{ListenerApi}

-- An error of the address parser becomes an `io::Error`.
abbrev pub from_parsed {ℓ} : {A : Type ℓ} → Parsed A → IoResult A
from_parsed (Parsed.ok a) = ok a
from_parsed (Parsed.err e) = err (kind e)

module _ ⦃streams : StreamApi⦄ ⦃listeners : ListenerApi⦄ where
  pub data ListenerInner : Type 0 where
    tcp : listeners.TcpListener → ListenerInner
    unix : listeners.UnixListener → ListenerInner

  pub record Listener : Type 0 where
    pub inner : ListenerInner
    pub addr : NetworkAddress
    pub options : Options

  -- `ListenerInner::local_addr`.
  unfoldable pub inner_local_addr : ListenerInner → IoResult NetworkAddress
  inner_local_addr (tcp l) = elim (listeners.tcp_local_addr l) [
    | ok a ↦ ok (NetworkAddress.tcp a)
    | err e ↦ err e
  ]
  inner_local_addr (unix l) = elim (listeners.unix_local_addr l) [
    | ok path ↦ from_parsed (try_from_unix path)
    | err e ↦ err e
  ]

  -- `Listener::local_addr`.
  unfoldable pub local_addr : Listener → IoResult NetworkAddress
  local_addr l = ok l.addr

  network_of_ip : Ip → List ℕ
  network_of_ip (v4 n) = codes "tcp4"
  network_of_ip (v6 n flowinfo scope_id) = codes "tcp6"

  network_of : NetworkAddress → List ℕ
  network_of (NetworkAddress.tcp a) = network_of_ip a.ip
  network_of (NetworkAddress.unix path) = codes "unix"

  unfoldable pub network : Listener → List ℕ
  unfolding network_of network_of_ip
  network l = network_of l.addr

  -- The descriptor by which mio watches the listener.
  unfoldable pub fd : ListenerInner → ℤ
  fd (tcp l) = listeners.tcp_fd l
  fd (unix l) = listeners.unix_fd l

  -- The address of a peer that has no path.
  abbrev pub peer_of : Option (List ℕ) → NetworkAddress
  peer_of (some path) = NetworkAddress.unix path
  peer_of none = NetworkAddress.unix (codes "unnamed_unix_socket")

  accept_inner : ListenerInner → ListenerInner × IoResult (Socket × NetworkAddress)
  accept_inner (tcp l) =
      let (l', res) = listeners.tcp_accept l in
      (tcp l', elim res [ ok (s, a) ↦ ok (Socket.tcp s, NetworkAddress.tcp a) | err e ↦ err e ])
  accept_inner (unix l) =
      let (l', res) = listeners.unix_accept l in
      (unix l', elim res [ ok (s, path) ↦ ok (Socket.unix s, peer_of path) | err e ↦ err e ])

  unfoldable pub accept : Listener → Listener × IoResult (Socket × NetworkAddress)
  unfolding accept_inner
  accept l = let (inner', res) = accept_inner l.inner in (record l { inner = inner' }, res)

  -- What bounds the connections that the listener can still give.
  abbrev pub pending : ListenerInner → ℕ
  pending (tcp l) = listeners.tcp_pending l
  pending (unix l) = listeners.unix_pending l

-- ===== src/SocketAddr.antt =====
-- src/socket_addr.rs on a Unix target: the address of a listener or a peer, its text form and its
-- parser. The parser and the text form of `std::net::SocketAddr`, and the text form of a path, are
-- arguments.
pub mod Parse
mod Tests
use Prim.Native.String.{String}
use rnet.Prelude.{
  ℕ, Bool, true, false, ◌||◌, List, [], ◌∷◌, ◌++◌, Option, none, some, if◌then◌else◌,
}
use rnet.Prelude.Text.{codes, eq_text, is_empty, strip_prefix, split_once}
use rnet.Io.{ErrorKind, invalid_input, addr_not_available}

-- The value of an IP address, by version; with one of version 6, `std` keeps its flow information and
-- its scope.
pub data Ip : Type 0 where
  v4 : ℕ → Ip
  v6 : ℕ → (flowinfo scope_id : ℕ) → Ip

pub record SocketAddr : Type 0 where
  pub ip : Ip
  pub port : ℕ

pub data Protocol : Type 0 where
  tcp_protocol unix_protocol : Protocol

pub data NetworkAddress : Type 0 where
  tcp : SocketAddr → NetworkAddress
  unix : List ℕ → NetworkAddress

unfoldable pub protocol : NetworkAddress → Protocol
protocol (tcp a) = tcp_protocol
protocol (unix path) = unix_protocol

-- The errors of `from_str`, one for each message; `kind` is what `io::Error` carries.
pub data AddressError : Type 0 where
  missing_separator empty_body : AddressError
  invalid_tcp_address : List ℕ → AddressError
  unsupported_protocol : List ℕ → AddressError
  not_a_path : AddressError

unfoldable pub kind : AddressError → ErrorKind
kind not_a_path = addr_not_available
kind _ = invalid_input

pub data Parsed {ℓ} (A : Type ℓ) : Type ℓ where
  ok : A → Parsed A
  err : AddressError → Parsed A

abbrev pub separator : List ℕ
separator = codes "://"

abbrev pub is_tcp : List ℕ → Bool
is_tcp proto =
    eq_text proto (codes "tcp") || eq_text proto (codes "tcp4") || eq_text proto (codes "tcp6")

-- `format!("0.0.0.0{}", body)` for a body that leaves the host out.
unfoldable pub with_host : List ℕ → List ℕ
with_host body = elim (strip_prefix (codes ":") body) [
  | some r ↦ codes "0.0.0.0" ++ body
  | none ↦ body
]

module _ (parse_socket_addr : List ℕ → Option SocketAddr) where
  parse_tcp : List ℕ → Parsed NetworkAddress
  parse_tcp text = elim (parse_socket_addr text) [
    | some a ↦ ok (tcp a)
    | none ↦ err (invalid_tcp_address text)
  ]

  parse_body : List ℕ → List ℕ → Parsed NetworkAddress
  unfolding parse_tcp
  parse_body proto body =
      if is_empty body
      then err empty_body
      else if is_tcp proto
      then parse_tcp (with_host body)
      else if eq_text proto (codes "unix")
      then ok (unix body)
      else err (unsupported_protocol proto)

  unfoldable pub from_str : List ℕ → Parsed NetworkAddress
  unfolding parse_body split_once with_host
  from_str s = elim (split_once separator s) [
    | none ↦ err missing_separator
    | some (proto, body) ↦ parse_body proto body
  ]

-- `Display`; `show_path` is `path.display()`, which replaces what is no text in the bytes of a path.
unfoldable pub display :
    (SocketAddr → List ℕ) → (show_path : List ℕ → List ℕ) → NetworkAddress → List ℕ
display show_socket_addr show_path (tcp a) = codes "tcp://" ++ show_socket_addr a
display show_socket_addr show_path (unix path) = codes "unix://" ++ show_path path

-- `TryFrom<std::os::unix::net::SocketAddr>`: the argument is `as_pathname`.
unfoldable pub try_from_unix : Option (List ℕ) → Parsed NetworkAddress
try_from_unix (some path) = ok (unix path)
try_from_unix none = err not_a_path

-- `TryFrom<SocketAddr>`.
unfoldable pub try_from_tcp : SocketAddr → Parsed NetworkAddress
try_from_tcp a = ok (tcp a)

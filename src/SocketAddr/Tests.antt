-- ===== src/SocketAddr/Tests.antt =====
-- Addresses on concrete texts.
use rnet.Prelude.{ℕ, zero, suc, ◌≡◌, ◌≢◌, refl, List, [], ◌∷◌, Option, none, some, arith}
use rnet.Prelude.Text.{codes, split_once}
use rnet.SocketAddr.{
  Ip, v4, v6, SocketAddr, NetworkAddress, tcp, unix, ok, err, unsupported_protocol, from_str,
  display,
}
use rnet.SocketAddr.Parse.{from_str-display}

-- A text form of three codes: the version, the value and the port.
abbrev show_parts : Ip → ℕ → List ℕ
show_parts (v4 n) p = 1 ∷ n ∷ p ∷ []
show_parts (v6 n flowinfo scope_id) p = 2 ∷ n ∷ p ∷ []

abbrev show_addr : SocketAddr → List ℕ
show_addr s = show_parts s.ip s.port

abbrev parse_addr : List ℕ → Option SocketAddr
parse_addr (suc zero ∷ n ∷ p ∷ []) = some (record { ip = v4 n; port = p })
parse_addr (suc (suc zero) ∷ n ∷ p ∷ []) = some (record { ip = v6 n 0 0; port = p })
parse_addr _ = none

no_udp : from_str parse_addr (codes "udp://4ab") ≡ err (unsupported_protocol (codes "udp"))
unfolding from_str split_once
no_udp = refl

abbrev local : NetworkAddress
local = tcp (record { ip = v4 127; port = 80 })

-- A text of ASCII bytes is left alone.
abbrev show_path : List ℕ → List ℕ
show_path path = path

local_named : local ≢ unix []
local_named e = ground arith

tcp_injective : (s t : SocketAddr) → tcp s ≡ tcp t → t ≡ s
tcp_injective s t e = cc

from_str-display_example : from_str parse_addr (display show_addr show_path local) ≡ ok local
from_str-display_example =
    from_str-display parse_addr show_addr show_path local (λ s e. rw (tcp_injective _ s e) refl)
      (λ s e. rw (tcp_injective _ s e) refl) (λ s e. rw (tcp_injective _ s e) (λ f. ground arith))
      (λ path e. refl) local_named

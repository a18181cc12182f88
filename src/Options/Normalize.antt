-- ===== src/Options/Normalize.antt =====
-- `Options::normalize` of src/options.rs: which addresses come out, and what happens to
-- `reuse_port`.
use rnet.Prelude.{ℕ, ◌≡◌, Bool, true, false, List, [], ◌∷◌, ◌++◌, map, Option}
use rnet.SocketAddr.{NetworkAddress, SocketAddr, AddressError, tcp, unix, Parsed, ok, err, from_str}
use rnet.Options.{Options}

-- Some address of the list is a Unix address.
abbrev pub any_unix : List NetworkAddress → Bool
any_unix [] = false
any_unix (unix path ∷ known) = true
any_unix (tcp a ∷ known) = any_unix known

module _ (parse_socket_addr : List ℕ → Option SocketAddr) where
  abbrev pub parse : List ℕ → Parsed NetworkAddress
  parse = from_str parse_socket_addr

  -- Every text parses, to the addresses listed.
  abbrev pub AllParsed : List (List ℕ) → List NetworkAddress → Type 0
  AllParsed addrs known = map parse addrs ≡ map ok known

  -- The texts up to the first that does not parse.
  abbrev pub FirstError : List (List ℕ) → AddressError → Type 0
  FirstError addrs e =
      (before : List (List ℕ)) × (s : List ℕ) × (behind : List (List ℕ)) × (known : List
        NetworkAddress)
      × (addrs ≡ before ++ (s ∷ behind))
      × AllParsed before known
      × (parse s ≡ err e)

-- ===== src/SocketAddr/Parse.antt =====
-- What `NetworkAddress::from_str` of src/socket_addr.rs accepts, and that it reads `Display` back.
use rnet.Prelude.{ℕ, ◌≡◌, ◌≢◌, ◌⊎◌, refl, List, [], ◌∷◌, ◌++◌, Option, none, some, arith}
use rnet.Prelude.Text.{codes, strip_prefix}
use rnet.SocketAddr.{NetworkAddress, SocketAddr, tcp, unix, ok, from_str, display}

module _ (parse_socket_addr : List ℕ → Option SocketAddr) where
  -- The text form of an address parses back to it: of a TCP address, if the standard library reads its
  -- own text of this address back and that text is not empty and begins with no colon; of a Unix
  -- address, if its path is not empty and is its own text form, as a path that is text is.
  pub from_str-display :
      (show_socket_addr : SocketAddr → List ℕ) (show_path : List ℕ → List ℕ) (a : NetworkAddress)
      → ((s : SocketAddr) → a ≡ tcp s → parse_socket_addr (show_socket_addr s) ≡ some s)
      → ((s : SocketAddr) → a ≡ tcp s → strip_prefix (codes ":") (show_socket_addr s) ≡ none)
      → ((s : SocketAddr) → a ≡ tcp s → show_socket_addr s ≢ [])
      → ((path : List ℕ) → a ≡ unix path → show_path path ≡ path)
      → a ≢ unix []
      → from_str parse_socket_addr (display show_socket_addr show_path a) ≡ ok a
  unfolding from_str display
  from_str-display show show_path (tcp s) reads plain full shown named =
      ground (arith, reads s refl, plain s refl, full s refl)
  from_str-display show show_path (unix []) reads plain full shown named = absurd (named refl)
  from_str-display show show_path (unix (c ∷ path)) reads plain full shown named =
      let e = shown (c ∷ path) refl in rw e refl

  -- The text that is given to the standard library: where the body leaves the host out, `0.0.0.0` stands
  -- in front.
  abbrev pub Hosted : List ℕ → List ℕ → Type 0
  Hosted body text =
      ((rest : List ℕ) × (body ≡ codes ":" ++ rest) × (text ≡ codes "0.0.0.0:" ++ rest))
      ⊎ (((rest : List ℕ) → body ≢ codes ":" ++ rest) × (text ≡ body))

  -- How an accepted body was read.
  abbrev pub Accepted : List ℕ → List ℕ → NetworkAddress → Type 0
  Accepted proto body a =
      ((proto ≡ codes "unix") × (a ≡ unix body))
      ⊎ (((proto ≡ codes "tcp") ⊎ (proto ≡ codes "tcp4") ⊎ (proto ≡ codes "tcp6"))
          × ((t : SocketAddr) × (text : List ℕ) × (a ≡ tcp t)
              × Hosted body text
              × (parse_socket_addr text ≡ some t)))

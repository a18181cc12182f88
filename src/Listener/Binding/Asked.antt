-- ===== src/Listener/Binding/Asked.antt =====
-- The calls on a listener's socket that the options ask for, told apart from src/listener.rs.
use rnet.Prelude.{
  ℕ, zero, suc, ◌/◌, ◌<◌, ◌≡◌, ◌≢◌, ◌⊎◌, inl, inr, refl, not, ltb, arith, Bool, true, false, List,
  [], ◌∷◌, ◌++◌, Option, none, some,
}
use rnet.Prelude.Text.{is_empty}
use rnet.SocketAddr.{NetworkAddress}
use rnet.Options.{Options, TcpSocketOpt, no_delay, delay}
use rnet.Extern.Sockets
use rnet.Extern.Sockets.{Call}
use rnet.Listener.Binding.{if_set, configure_socket, unwrap_or, keepalive_calls, is_no_delay}

-- A call that is made only if something was asked for.
abbrev pub OnlyIf : Type 0 → Call → List Call → Type 0
OnlyIf Asked c cs = (Asked × (cs ≡ c ∷ [])) ⊎ (¬ Asked × (cs ≡ []))

-- The options that every listener's socket is given before anything else, in this order.
abbrev pub Configures : Options → List Call → Type 0
Configures options cs =
    (reuse_addr : List Call) × (reuse_port : List Call) × (recv : List Call) × (send : List Call)
    × (device : List Call) × (cs ≡ reuse_addr ++ reuse_port ++ recv ++ send ++ device)
    × OnlyIf (options.reuse_addr ≡ true) (Sockets.set_reuse_address true) reuse_addr
    × OnlyIf (options.reuse_port ≡ true) (Sockets.set_reuse_port true) reuse_port
    × OnlyIf (0 < options.socket_recv_buffer)
        (Sockets.set_recv_buffer_size options.socket_recv_buffer) recv
    × OnlyIf (0 < options.socket_send_buffer)
        (Sockets.set_send_buffer_size options.socket_send_buffer) send
    × OnlyIf (options.bind_to_device ≢ []) (Sockets.bind_device options.bind_to_device) device

-- A value that was asked for, or what it falls back on.
abbrev pub Chosen : Option ℕ → ℕ → ℕ → Type 0
Chosen none fallback n = n ≡ fallback
Chosen (some m) fallback n = n ≡ m

-- Keeping a connection alive, if a time is set.
abbrev pub KeepsAlive : Option ℕ → Options → List Call → Type 0
KeepsAlive none options cs = cs ≡ []
KeepsAlive (some time) options cs =
    (interval : ℕ) × (count : ℕ) × Chosen options.tcp_keep_interval (time / 5) interval
    × Chosen options.tcp_keep_count 5 count
    × (cs ≡ Sockets.set_keepalive true ∷ Sockets.set_tcp_keepalive time interval count ∷ [])

-- What a listener's socket is given last: a TCP one only.
abbrev pub Finishes : Options → NetworkAddress → List Call → Type 0
Finishes options (NetworkAddress.tcp a) cs =
    (nagle : List Call) × (alive : List Call) × (cs ≡ nagle ++ alive)
    × OnlyIf (options.tcp_no_delay ≡ no_delay) (Sockets.set_tcp_nodelay true) nagle
    × KeepsAlive options.tcp_keepalive options alive
Finishes options (NetworkAddress.unix path) cs = cs ≡ []

if_set-OnlyIf : (b : Bool) (c : Call) → OnlyIf (b ≡ true) c (if_set b c)
if_set-OnlyIf true c = inl (refl, refl)
if_set-OnlyIf false c = inr (λ e. ground arith, refl)

if_positive : (n : ℕ) (c : Call) → OnlyIf (0 < n) c (if_set (ltb 0 n) c)
if_positive zero c = inr (λ e. omega arith, refl)
if_positive (suc n) c =
    let positive : ltb 0 (suc n) ≡ true = ground arith in inl (omega arith, rw positive refl)

if_named : (name : List ℕ) (c : Call) → OnlyIf (name ≢ []) c (if_set (not (is_empty name)) c)
if_named [] c = inr (λ e. e refl, refl)
if_named (x ∷ name) c = inl (λ e. ground arith, refl)

pub configure_socket-Configures :
    (options : Options) → Configures options (configure_socket options)
unfolding configure_socket
configure_socket-Configures options = (
  _,
  _,
  _,
  _,
  _,
  refl,
  if_set-OnlyIf options.reuse_addr _,
  if_set-OnlyIf options.reuse_port _,
  if_positive options.socket_recv_buffer _,
  if_positive options.socket_send_buffer _,
  if_named options.bind_to_device _,
)

pub is_no_delay-OnlyIf :
    (o : TcpSocketOpt) (c : Call) → OnlyIf (o ≡ no_delay) c (if_set (is_no_delay o) c)
is_no_delay-OnlyIf no_delay c = inl (refl, refl)
is_no_delay-OnlyIf delay c = inr (λ e. ground arith, refl)

unwrap_or-Chosen : (o : Option ℕ) (n : ℕ) → Chosen o n (unwrap_or o n)
unwrap_or-Chosen none n = refl
unwrap_or-Chosen (some m) n = refl

pub keepalive_calls-KeepsAlive :
    (o : Option ℕ) (options : Options) → KeepsAlive o options (keepalive_calls o options)
keepalive_calls-KeepsAlive none options = refl
keepalive_calls-KeepsAlive (some time) options = (
  _,
  _,
  unwrap_or-Chosen options.tcp_keep_interval (time / 5),
  unwrap_or-Chosen options.tcp_keep_count 5,
  refl,
)

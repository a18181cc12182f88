-- ===== src/Options/Setters.antt =====
-- The setters of `OptionsBuilder` in src/options.rs, and what a chain of calls comes to.
use rnet.Prelude.{ℕ, ◌≡◌, refl, ap, ◌∙◌, Bool, List, [], ◌∷◌, some}
use rnet.Options.{LoadBalancing, Level, TcpSocketOpt, Options, OptionsBuilder, fill}

-- A call of a setter with its argument.
pub data Call : Type 0 where
  set_lb : LoadBalancing → Call
  set_reuse_addr : Bool → Call
  set_reuse_port : Bool → Call
  set_bind_to_device : List ℕ → Call
  set_num_event_loop : ℕ → Call
  set_read_buffer_cap : ℕ → Call
  set_write_buffer_cap : ℕ → Call
  set_lock_os_thread : Bool → Call
  set_ticker : Bool → Call
  set_tcp_keepalive : ℕ → Call
  set_tcp_keepinterval : ℕ → Call
  set_tcp_keepcount : ℕ → Call
  set_tcp_no_delay : TcpSocketOpt → Call
  set_socket_recv_buffer : ℕ → Call
  set_socket_send_buffer : ℕ → Call
  set_edge_triggered_io_chunk : ℕ → Call
  set_log_path : List ℕ → Call
  set_log_level : Level → Call

-- The method that the call is of.
unfoldable pub set : OptionsBuilder → Call → OptionsBuilder
set b (set_lb val) = record b { lb = some val }
set b (set_reuse_addr val) = record b { reuse_addr = some val }
set b (set_reuse_port val) = record b { reuse_port = some val }
set b (set_bind_to_device val) = record b { bind_to_device = some val }
set b (set_num_event_loop val) = record b { num_event_loop = some val }
set b (set_read_buffer_cap val) = record b { read_buffer_cap = some val }
set b (set_write_buffer_cap val) = record b { write_buffer_cap = some val }
set b (set_lock_os_thread val) = record b { lock_os_thread = some val }
set b (set_ticker val) = record b { ticker = some val }
set b (set_tcp_keepalive val) = record b { tcp_keepalive = some val }
set b (set_tcp_keepinterval val) = record b { tcp_keep_interval = some val }
set b (set_tcp_keepcount val) = record b { tcp_keep_count = some val }
set b (set_tcp_no_delay val) = record b { tcp_no_delay = some val }
set b (set_socket_recv_buffer val) = record b { socket_recv_buffer = some val }
set b (set_socket_send_buffer val) = record b { socket_send_buffer = some val }
set b (set_edge_triggered_io_chunk val) = record b { edge_triggered_io_chunk = some val }
set b (set_log_path val) = record b { log_path = some val }
set b (set_log_level val) = record b { log_level = some val }

-- A chain of calls.
unfoldable pub set_all : OptionsBuilder → List Call → OptionsBuilder
unfolding set
set_all b [] = b
set_all b (call ∷ calls) = set_all (set b call) calls

-- What a call means for the options themselves: an assignment to one field.
abbrev pub assign : Options → Call → Options
assign o (set_lb val) = record o { lb = val }
assign o (set_reuse_addr val) = record o { reuse_addr = val }
assign o (set_reuse_port val) = record o { reuse_port = val }
assign o (set_bind_to_device val) = record o { bind_to_device = val }
assign o (set_num_event_loop val) = record o { num_event_loop = val }
assign o (set_read_buffer_cap val) = record o { read_buffer_cap = val }
assign o (set_write_buffer_cap val) = record o { write_buffer_cap = val }
assign o (set_lock_os_thread val) = record o { lock_os_thread = val }
assign o (set_ticker val) = record o { ticker = val }
assign o (set_tcp_keepalive val) = record o { tcp_keepalive = some val }
assign o (set_tcp_keepinterval val) = record o { tcp_keep_interval = some val }
assign o (set_tcp_keepcount val) = record o { tcp_keep_count = some val }
assign o (set_tcp_no_delay val) = record o { tcp_no_delay = val }
assign o (set_socket_recv_buffer val) = record o { socket_recv_buffer = val }
assign o (set_socket_send_buffer val) = record o { socket_send_buffer = val }
assign o (set_edge_triggered_io_chunk val) = record o { max_batch_size = val }
assign o (set_log_path val) = record o { log_path = some val }
assign o (set_log_level val) = record o { log_level = val }

abbrev pub assign_all : Options → List Call → Options
assign_all o [] = o
assign_all o (call ∷ calls) = assign_all (assign o call) calls

fill-set : (b : OptionsBuilder) (call : Call) → fill (set b call) ≡ assign (fill b) call
unfolding fill set
fill-set b (set_lb val) = refl
fill-set b (set_reuse_addr val) = refl
fill-set b (set_reuse_port val) = refl
fill-set b (set_bind_to_device val) = refl
fill-set b (set_num_event_loop val) = refl
fill-set b (set_read_buffer_cap val) = refl
fill-set b (set_write_buffer_cap val) = refl
fill-set b (set_lock_os_thread val) = refl
fill-set b (set_ticker val) = refl
fill-set b (set_tcp_keepalive val) = refl
fill-set b (set_tcp_keepinterval val) = refl
fill-set b (set_tcp_keepcount val) = refl
fill-set b (set_tcp_no_delay val) = refl
fill-set b (set_socket_recv_buffer val) = refl
fill-set b (set_socket_send_buffer val) = refl
fill-set b (set_edge_triggered_io_chunk val) = refl
fill-set b (set_log_path val) = refl
fill-set b (set_log_level val) = refl

-- A chain of setter calls on a builder comes to assignments, in the order of the calls, to the
-- options that the builder stood for; so of two calls of one setter the later one counts.
pub fill-set_all :
    (b : OptionsBuilder) (calls : List Call) → fill (set_all b calls) ≡ assign_all (fill b) calls
unfolding set_all
fill-set_all b [] = refl
fill-set_all b (call ∷ calls) =
    fill-set_all (set b call) calls ∙ ap (λ (o : Options). assign_all o calls) (fill-set b call)

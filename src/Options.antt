-- ===== src/Options.antt =====
-- src/options.rs: the options of an engine, and the builder that fills and rounds them.
-- Durations are counted in nanoseconds. `Options/Cores` has the choice of cores.
pub mod Power
pub mod Build
pub mod Idempotence
pub mod Normalize
pub mod Setters
pub mod Cores
mod Tests
use rnet.Prelude.{
  ℕ, zero, suc, ◌+◌, ◌*◌, ◌^◌, Bool, true, false, ◌&&◌, List, [], ◌∷◌, ◌++◌, Option, none, some,
  ltb, leb, if◌then◌else◌,
}
use rnet.Io.{Run, ret, panic, ◌>>=◌}
use rnet.SocketAddr.{NetworkAddress, SocketAddr, tcp, unix, Parsed, ok, err, from_str}

abbrev pub default_buffer_size : ℕ
default_buffer_size = 1024

abbrev pub max_stream_buffer_cap : ℕ
max_stream_buffer_cap = 64 * 1024

pub data LoadBalancing : Type 0 where
  round_robin least_connections source_addr_hash : LoadBalancing

pub data Level : Type 0 where
  debug info warn error fatal : Level

pub data TcpSocketOpt : Type 0 where
  no_delay delay : TcpSocketOpt

pub record Options : Type 0 where
  pub lb : LoadBalancing
  pub reuse_addr : Bool
  pub reuse_port : Bool
  pub bind_to_device : List ℕ
  pub num_event_loop : ℕ
  pub read_buffer_cap : ℕ
  pub write_buffer_cap : ℕ
  pub lock_os_thread : Bool
  pub ticker : Bool
  pub tcp_keepalive : Option ℕ
  pub tcp_keep_interval : Option ℕ
  pub tcp_keep_count : Option ℕ
  pub tcp_no_delay : TcpSocketOpt
  pub socket_recv_buffer : ℕ
  pub socket_send_buffer : ℕ
  pub max_batch_size : ℕ
  pub log_path : Option (List ℕ)
  pub log_level : Level

-- `Options::default()`.
abbrev pub default_options : Options
default_options = record {
  lb = round_robin;
  reuse_addr = false;
  reuse_port = false;
  bind_to_device = [];
  num_event_loop = 0;
  read_buffer_cap = max_stream_buffer_cap;
  write_buffer_cap = max_stream_buffer_cap;
  lock_os_thread = false;
  ticker = false;
  tcp_keepalive = none;
  tcp_keep_interval = none;
  tcp_keep_count = none;
  tcp_no_delay = no_delay;
  socket_recv_buffer = 0;
  socket_send_buffer = 0;
  max_batch_size = 0;
  log_path = none;
  log_level = info;
}

pub record OptionsBuilder : Type 0 where
  pub base_options : Option Options
  pub lb : Option LoadBalancing
  pub reuse_addr : Option Bool
  pub reuse_port : Option Bool
  pub bind_to_device : Option (List ℕ)
  pub num_event_loop : Option ℕ
  pub read_buffer_cap : Option ℕ
  pub write_buffer_cap : Option ℕ
  pub lock_os_thread : Option Bool
  pub ticker : Option Bool
  pub tcp_keepalive : Option ℕ
  pub tcp_keep_interval : Option ℕ
  pub tcp_keep_count : Option ℕ
  pub tcp_no_delay : Option TcpSocketOpt
  pub socket_recv_buffer : Option ℕ
  pub socket_send_buffer : Option ℕ
  pub edge_triggered_io_chunk : Option ℕ
  pub log_path : Option (List ℕ)
  pub log_level : Option Level

-- `OptionsBuilder::default()`.
abbrev pub builder : OptionsBuilder
builder = record {
  base_options = none;
  lb = none;
  reuse_addr = none;
  reuse_port = none;
  bind_to_device = none;
  num_event_loop = none;
  read_buffer_cap = none;
  write_buffer_cap = none;
  lock_os_thread = none;
  ticker = none;
  tcp_keepalive = none;
  tcp_keep_interval = none;
  tcp_keep_count = none;
  tcp_no_delay = none;
  socket_recv_buffer = none;
  socket_send_buffer = none;
  edge_triggered_io_chunk = none;
  log_path = none;
  log_level = none;
}

-- The smallest power of two from `2 ^ e` on that is at least `n`, within so many doublings.
unfoldable pub power_from : ℕ → ℕ → ℕ → Option ℕ
power_from zero e n = none
power_from (suc rounds) e n =
    let rest = power_from rounds (e + 1) n in if leb n (2 ^ e) then some (2 ^ e) else rest

-- `usize::next_power_of_two` of 64 bits. Where no power fits, it panics in a build that checks
-- overflow, and gives 0 in one that does not.
unfoldable pub next_power_of_two : Bool → ℕ → Run ℕ
next_power_of_two overflow_checks n = elim (power_from 64 0 n) [
  | some p ↦ ret p
  | none ↦ if overflow_checks then panic else ret 0
]

unfoldable pub ceil_to_power_of_two : Bool → ℕ → Run ℕ
ceil_to_power_of_two overflow_checks n =
    if leb n 2 then ret 2 else next_power_of_two overflow_checks n

unfoldable pub normalize_buffer_size : Bool → ℕ → Run ℕ
normalize_buffer_size overflow_checks size =
    if leb size 0
    then ret max_stream_buffer_cap
    else if leb size default_buffer_size
    then ret default_buffer_size
    else ceil_to_power_of_two overflow_checks size

-- `if let Some(v) = given { field = v; }`
abbrev pub or_keep {ℓ} : {A : Type ℓ} → Option A → A → A
or_keep (some v) old = v
or_keep none old = old

-- `if let Some(v) = given { field = Some(v); }`
abbrev pub or_keep_some {ℓ} : {A : Type ℓ} → Option A → Option A → Option A
or_keep_some (some v) old = some v
or_keep_some none old = old

-- The base options, or the defaults, with what the builder was given; nothing is rounded yet.
unfoldable pub fill : OptionsBuilder → Options
fill b =
    let base : Options = or_keep b.base_options default_options in
    record {
      lb = or_keep b.lb base.lb;
      reuse_addr = or_keep b.reuse_addr base.reuse_addr;
      reuse_port = or_keep b.reuse_port base.reuse_port;
      bind_to_device = or_keep b.bind_to_device base.bind_to_device;
      num_event_loop = or_keep b.num_event_loop base.num_event_loop;
      read_buffer_cap = or_keep b.read_buffer_cap base.read_buffer_cap;
      write_buffer_cap = or_keep b.write_buffer_cap base.write_buffer_cap;
      lock_os_thread = or_keep b.lock_os_thread base.lock_os_thread;
      ticker = or_keep b.ticker base.ticker;
      tcp_keepalive = or_keep_some b.tcp_keepalive base.tcp_keepalive;
      tcp_keep_interval = or_keep_some b.tcp_keep_interval base.tcp_keep_interval;
      tcp_keep_count = or_keep_some b.tcp_keep_count base.tcp_keep_count;
      tcp_no_delay = or_keep b.tcp_no_delay base.tcp_no_delay;
      socket_recv_buffer = or_keep b.socket_recv_buffer base.socket_recv_buffer;
      socket_send_buffer = or_keep b.socket_send_buffer base.socket_send_buffer;
      max_batch_size = or_keep b.edge_triggered_io_chunk base.max_batch_size;
      log_path = or_keep_some b.log_path base.log_path;
      log_level = or_keep b.log_level base.log_level;
    }

unfoldable pub batch_size : Bool → ℕ → Run ℕ
batch_size overflow_checks n =
    if ltb 0 n then ceil_to_power_of_two overflow_checks n else ret (2 ^ 20)

unfoldable pub build : Bool → OptionsBuilder → Run Options
build overflow_checks b = do
  let opts = fill b
  batch ← batch_size overflow_checks opts.max_batch_size
  read_cap ← normalize_buffer_size overflow_checks opts.read_buffer_cap
  write_cap ← normalize_buffer_size overflow_checks opts.write_buffer_cap
  ret (record opts {
    max_batch_size = batch;
    read_buffer_cap = read_cap;
    write_buffer_cap = write_cap;
  })

-- `OptionsBuilder::with_options`.
unfoldable pub with_options : OptionsBuilder → Options → OptionsBuilder
with_options b options = record b { base_options = some options }

-- `Options::normalize`, with the parser of TCP addresses as an argument: the loop over the texts,
-- then the adjustment of `reuse_port`. An error leaves the options as they were.
module _ (parse_socket_addr : List ℕ → Option SocketAddr) where
  note_unix : Bool → NetworkAddress → Bool
  note_unix has_unix (unix path) = true
  note_unix has_unix (tcp a) = has_unix

  normalize_loop : List NetworkAddress → Bool → List (List ℕ) → Parsed (List NetworkAddress × Bool)
  unfolding note_unix
  normalize_loop parsed_addrs has_unix [] = ok (parsed_addrs, has_unix)
  normalize_loop parsed_addrs has_unix (s ∷ addrs) = elim (from_str parse_socket_addr s) [
    | err e ↦ err e
    | ok a ↦ normalize_loop (parsed_addrs ++ (a ∷ [])) (note_unix has_unix a) addrs
  ]

  unfoldable pub normalize : Options → List (List ℕ) → Options × Parsed (List NetworkAddress)
  unfolding normalize_loop
  normalize o addrs = elim (normalize_loop [] false addrs) [
    | err e ↦ (o, err e)
    | ok (parsed_addrs, has_unix) ↦
        (if o.reuse_port && has_unix then record o { reuse_port = false } else o, ok parsed_addrs)
  ]

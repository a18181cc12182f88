-- ===== src/EventLoop/Running/Tests.antt =====
-- An event loop with one connection, one listener and commands in both queues.
use rnet.Prelude.{
  ℕ, zero, suc, ◌≡◌, ◌-◌, ◌^◌, refl, Bool, true, false, List, [], ◌∷◌, some, none, arith,
}
use rnet.Prelude.Int.{pos}
use rnet.Io.{interrupted, ok, err}
use rnet.Extern.Lists.{list_bytes}
use rnet.Extern.Script.{takes, fails, scripted_streams}
use rnet.Extern.Tables.{list_slab, list_channel, at}
use rnet.Extern.Devices.{watched_table, counting_waker, backlogs}
use rnet.Gfd.{Gfd, event_loop_index, slab_index}
use rnet.Options.{default_options}
use rnet.SocketAddr.{NetworkAddress, v4, unix}
use rnet.Socket.{Socket, tcp}
use rnet.Codec.{CodecApi, raw_codec}
use rnet.Command.{Command, low}
use rnet.Connection.{Connection}
use rnet.Handler.{EventHandler, no_action, Keeps-refl, KeepsOption-refl}
use rnet.Listener
use rnet.Listener.{Listener}
use rnet.EventLoop.Handle.{Shared, trigger, next_command}
use rnet.EventLoop.Handle.Queues.{Queued, trigger_lem}
use rnet.EventLoop.Handle.Order.{Takes, next_command_lem}
use rnet.EventLoop.Method.{Ensures}
use rnet.EventLoop.State.{EventLoop}
use rnet.EventLoop.Invariant.{Entry}
use rnet.EventLoop.Preserving.{IsValid}
use rnet.EventLoop.Closing.{close_connection}
use rnet.EventLoop.Closing.Effect.{After, close_connection_lem}
use rnet.EventLoop.Opening.{register}
use rnet.EventLoop.Opening.Effect.{Readied, Registered, register_lem}
use rnet.EventLoop.Accepting.{accept_process}
use rnet.EventLoop.Accepting.Effect.{AsMany, accept_process_lem}
use rnet.EventLoop.Commands.{async_write}
use rnet.EventLoop.Commands.Addressing.{Spares, async_write_lem}
use rnet.EventLoop.Running.{Turn}

instance abbrev raw_messages : CodecApi
raw_messages = raw_codec

abbrev stream : Socket
stream = tcp (record {
  descriptor = pos 7;
  accepted = 1 ∷ [];
  answers = takes 3 ∷ fails interrupted ∷ takes 4 ∷ [];
  arriving = (8 ∷ 9 ∷ []) ∷ [];
})

abbrev arrived : Socket
arrived = tcp (record { descriptor = pos 8; accepted = []; answers = []; arriving = [] })

abbrev name : Gfd
name = record { seq = 1; index_info = 0; fd = pos 7 }

abbrev busy : Connection
busy = record {
  gfd = name;
  socket = some stream;
  local_addr = unix (97 ∷ []);
  peer_addr = unix (98 ∷ []);
  closed = false;
  io_buffer = none;
  in_buffer = none;
  out_buffer = some ((2 ∷ 3 ∷ []) ∷ (4 ∷ 5 ∷ 6 ∷ []) ∷ []);
  handle = 0;
  options = default_options;
  codec = none;
}

abbrev queues : Shared ℕ
queues = record {
  user = 0;
  urgent = record {
    items = Command.async_write name (7 ∷ []) ∷ Command.close 0 ∷ [];
    connected = true;
  };
  common = record { items = Command.register arrived (unix []) (unix []) ∷ []; connected = true };
  waker = record { waker = 0; awoken = false };
}

-- A handler that counts the calls of its methods.
abbrev count : Shared ℕ → Shared ℕ
count s = record s { user = suc s.user }

instance abbrev meter : EventHandler (Shared ℕ)
meter = record {
  on_open = λ s c. (count s, c, no_action);
  on_traffic = λ s c. (count s, c, no_action);
  on_close = λ s c. (count s, c, no_action);
  on_tick = λ s cs. (count s, cs, 5, no_action);
  on_open-Keeps = λ s c. Keeps-refl c;
  on_traffic-Keeps = λ s c. Keeps-refl c;
  on_close-Keeps = λ s c. Keeps-refl c;
  on_tick-Keeps = λ s cs k. KeepsOption-refl (at cs k);
  len-on_tick = λ s cs. refl;
}

-- One connection waits at it.
abbrev door : Listener
door = record {
  inner = Listener.tcp (record {
    descriptor = pos 3;
    address = record { ip = v4 0; port = 9000 };
    waiting =
        (
          record { descriptor = pos 9; accepted = []; answers = []; arriving = [] },
          record { ip = v4 1; port = 4000 },
        )
        ∷ [];
  });
  addr = NetworkAddress.tcp (record { ip = v4 0; port = 9000 });
  options = default_options;
}

abbrev one_loop : EventLoop ℕ
one_loop = record {
  loop_id = 0;
  poll = λ fd. none;
  listeners = some (door ∷ []);
  options = default_options;
  connections = some busy ∷ [];
  shared = queues;
  conn_count = 1;
  connection_pool = [];
  mono_seq = 2;
  debug_assertions = false;
}

one_loop-IsValid : IsValid one_loop
unfolding event_loop_index slab_index
one_loop-IsValid = record { counted = refl; entries = entries; small = omega arith; release = refl }
  where
    entries : (key : ℕ) → Entry 0 key (at (some busy ∷ []) key)
    entries zero = ((stream, refl), refl, refl)
    entries (suc key) = tt

close_connection_lem_example :
    Ensures (λ l' r. After 0 one_loop l' r) (close_connection 0 true one_loop)
close_connection_lem_example = close_connection_lem 0 true one_loop one_loop-IsValid

register_lem_example :
    (s : Socket) × Readied default_options.tcp_no_delay arrived s
    × Ensures
        (λ l' r. IsValid l' × Registered s (unix []) (unix []) one_loop l' r)
        (register arrived (unix []) (unix []) one_loop)
register_lem_example = register_lem arrived (unix []) (unix []) one_loop one_loop-IsValid

accept_process_lem_example :
    Ensures
      (λ l' r. IsValid l' × AsMany one_loop.listeners l'.listeners)
      (accept_process 0 one_loop)
accept_process_lem_example = accept_process_lem 0 one_loop one_loop-IsValid

-- The handle of an earlier connection under the same key.
abbrev stale : Gfd
stale = record { seq = 0; index_info = 0; fd = pos 7 }

async_write_lem_example :
    Ensures (λ l' r. Spares stale one_loop l') (async_write stale (7 ∷ []) one_loop)
async_write_lem_example = async_write_lem stale (7 ∷ []) one_loop one_loop-IsValid

trigger_lem_example :
    let (h', r) = trigger queues low Command.wake in
    (h'.user ≡ 0) × ((b : Bool) × (r ≡ ok b) × Queued queues low Command.wake h' b)
trigger_lem_example = trigger_lem queues low Command.wake

next_command_lem_example : Takes queues (next_command queues).0 (next_command queues).1
next_command_lem_example = next_command_lem queues

-- A connection comes in, the first one is readable, and later the tick is due.
abbrev day : List Turn
day =
    record {
      polled = λ timeout. ok (
          (
            2 ^ 64 - 1025,
            record {
              is_readable = true;
              is_writable = false;
              is_error = false;
              is_read_closed = false;
            },
          )
          ∷ (
            0,
            record {
              is_readable = true;
              is_writable = true;
              is_error = false;
              is_read_closed = false;
            },
          )
          ∷ []);
      polled_at = 1;
      checked_at = 2;
      ticked_at = 3;
    }
    ∷ record { polled = λ timeout. err interrupted; polled_at = 4; checked_at = 5; ticked_at = 6 }
    ∷ []

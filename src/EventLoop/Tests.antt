-- ===== src/EventLoop/Tests.antt =====
-- Batches of writing and reading on scripted sockets.
use rnet.Prelude.{ℕ, suc, false, ◌≡◌, refl, [], ◌∷◌, some, none, arith}
use rnet.Prelude.Int.{pos}
use rnet.Io.{interrupted, ret}
use rnet.Extern.Lists.{list_bytes}
use rnet.Extern.Script.{takes, fails, scripted_streams}
use rnet.Options.{default_options}
use rnet.SocketAddr.{unix}
use rnet.Socket.{Socket, tcp, interruptions}
use rnet.Codec.{CodecApi, raw_codec}
use rnet.Connection.{Connection, chunks, unread}
use rnet.Connection.Output.Wire.{wire}
use rnet.EventLoop.{IoStatus, process_write}
use rnet.Handler.{Action, no_action}
use rnet.EventLoop.Reading.{handed, settle, process_read}
use rnet.EventLoop.Reading.Rounds.{Received, Stops}
use rnet.EventLoop.Reading.Progress.{process_read_lem}
use rnet.EventLoop.Reading.Order.{settle_lem}
use rnet.EventLoop.Batches.{Reason, process_write_lem}

instance abbrev raw_messages : CodecApi
raw_messages = raw_codec

-- It takes three bytes, is interrupted, and takes four more.
abbrev stream : Socket
stream = tcp (record {
  descriptor = pos 7;
  accepted = 1 ∷ [];
  answers = takes 3 ∷ fails interrupted ∷ takes 4 ∷ [];
  arriving = [];
})

abbrev busy : Connection
busy = record {
  gfd = record { seq = 1; index_info = 0; fd = pos 7 };
  socket = some stream;
  local_addr = unix (97 ∷ []);
  peer_addr = unix (98 ∷ []);
  closed = false;
  io_buffer = none;
  in_buffer = none;
  out_buffer = some ((2 ∷ 3 ∷ []) ∷ (4 ∷ 5 ∷ 6 ∷ []) ∷ []);
  handle = 0;
  options = default_options;
  codec = none;
}

-- The third byte fills a batch of three.
process_write_lem_example :
    (c' : Connection) × (s' : Socket) × (status : IoStatus) × (process_write 10 3 (some busy)
      ≡ ret (some (some c', status)))
    × (c'.socket ≡ some s')
    × (wire c' ≡ wire busy)
    × Reason 3 0 (chunks busy.out_buffer) s' (chunks c'.out_buffer) status
    × (record c' { socket = busy.socket; out_buffer = busy.out_buffer } ≡ busy)
unfolding interruptions
process_write_lem_example = process_write_lem 10 3 busy stream refl (omega arith)

-- The handler counts its calls and leaves every byte where it is.
abbrev count_calls : ℕ → Connection → ℕ × Connection × Action
count_calls n c = (suc n, c, no_action)

-- Two pieces arrive, then the socket would block.
abbrev source : Socket
source = tcp (record {
  descriptor = pos 7;
  accepted = [];
  answers = [];
  arriving = (1 ∷ 2 ∷ []) ∷ (3 ∷ []) ∷ [];
})

abbrev listening : Connection
listening = record busy { socket = some source }

process_read_lem_example :
    (n : ℕ) × (h1 : ℕ) × (c1 : Connection) × (h2 : ℕ) × (c2 : Connection) × (status : IoStatus)
    × (process_read count_calls 5 4 64 0 (some listening) ≡ ret (some (h2, some c2, status)))
    × Received count_calls 64 0 listening n h1 c1
    × Stops count_calls 4 64 n h1 c1 h2 c2 status
process_read_lem_example =
    process_read_lem count_calls 4 64 0 listening source (λ h c s at_s. (s, at_s)) refl refl

settle_lem_example :
    (unread (settle listening) ≡ [])
    × ((settle listening).io_buffer ≡ none)
    × (unread (handed (settle listening) source (8 ∷ 9 ∷ [])) ≡ 8 ∷ 9 ∷ [])
unfolding settle
settle_lem_example = settle_lem listening source (8 ∷ 9 ∷ [])

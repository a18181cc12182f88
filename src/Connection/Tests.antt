-- ===== src/Connection/Tests.antt =====
-- A connection on concrete bytes and a scripted socket.
use rnet.Prelude.{ℕ, ◌≡◌, ◌⊎◌, refl, false, List, [], ◌∷◌, Option, none, some, length, take, arith}
use rnet.Prelude.Int.{pos}
use rnet.Io.{ErrorKind, interrupted, IoResult, ok, err, Run, ret, panic, concat, is_interrupted}
use rnet.Extern.Lists.{list_bytes}
use rnet.Extern.Script.{takes, fails, scripted_streams}
use rnet.Gfd.{Gfd}
use rnet.Options.{default_options}
use rnet.SocketAddr.{unix}
use rnet.Socket.{Socket, tcp, interruptions}
use rnet.Codec
use rnet.Codec.{CodecApi, raw_codec, raw, bytes_mut}
use rnet.Socket
use rnet.Connection.{Connection, new, reset, unread, unsent, queued, in_buf_len, io_buf_len}
use rnet.Connection.Input.{next_contiguous, next_vectored, PeekData, deref, peek, discard, read}
use rnet.Connection.Input.Taking.{Granted, Excessive, Took}
use rnet.Connection.Input.Contiguous.{next_contiguous_lem}
use rnet.Connection.Input.Peek.{peek_lem}
use rnet.Connection.Input.Discard.{discard_lem}
use rnet.Connection.Input.Vectored.{GrantedSome, Refused, next_vectored_lem, joined}
use rnet.Connection.Input.Read.{read_lem}
use rnet.Connection.Recycle.{reset_lem}
use rnet.Connection.Output.Sending.{Sends, send_lem}
use rnet.Connection.Output.{send, write, write_bytes, write_vectored, write_vectored_bytes, flush}
use rnet.Connection.Output.Wire.{wire, Delivers}
use rnet.Connection.Output.Delivery.{write_lem, write_bytes_lem}
use rnet.Connection.Output.Vectored.{write_vectored_lem, write_vectored_bytes_lem}
use rnet.Connection.Output.Flush.{flush_lem}

instance abbrev raw_messages : CodecApi
raw_messages = raw_codec

-- It takes three bytes, is interrupted, and takes four more.
abbrev stream : Socket
stream = tcp (record {
  descriptor = pos 7;
  accepted = 1 ∷ [];
  answers = takes 3 ∷ fails interrupted ∷ takes 4 ∷ [];
  arriving = [];
})

abbrev conn : Connection
conn = record {
  gfd = record { seq = 1; index_info = 0; fd = pos 7 };
  socket = some stream;
  local_addr = unix (97 ∷ []);
  peer_addr = unix (98 ∷ []);
  closed = false;
  io_buffer = some (3 ∷ 4 ∷ 5 ∷ []);
  in_buffer = some (1 ∷ 2 ∷ []);
  out_buffer = none;
  handle = 0;
  options = default_options;
  codec = none;
}

-- The same connection, with bytes that wait to be sent.
abbrev waiting : Connection
waiting = record conn { out_buffer = some ((2 ∷ 3 ∷ []) ∷ (4 ∷ 5 ∷ 6 ∷ []) ∷ []) }

abbrev reply : List (List ℕ)
reply = (20 ∷ 21 ∷ []) ∷ [] ∷ (22 ∷ 23 ∷ []) ∷ []

abbrev shown : Run (Option PeekData) → Run (Option (List ℕ))
shown (ret (some d)) = ret (some (deref d))
shown (ret none) = ret none
shown panic = panic

-- Three bytes straddle the two buffers.
peek_run : shown (peek conn (some 3)) ≡ ret (some (1 ∷ 2 ∷ 3 ∷ []))
unfolding peek in_buf_len io_buf_len
peek_run = refl

write_lem_example :
    (c' : Connection) × (r : IoResult ℕ) × (write conn (10 ∷ 11 ∷ 12 ∷ 13 ∷ []) ≡ ret (c', r))
    × Delivers (Socket.write stream (10 ∷ 11 ∷ 12 ∷ 13 ∷ [])) conn (10 ∷ 11 ∷ 12 ∷ 13 ∷ []) c' r
write_lem_example = write_lem conn stream (10 ∷ 11 ∷ 12 ∷ 13 ∷ []) refl

write_bytes_lem_example :
    (c' : Connection) × (r : IoResult ℕ) × (write_bytes waiting (7 ∷ 8 ∷ []) ≡ ret (c', r))
    × Delivers (Socket.write stream (7 ∷ 8 ∷ [])) waiting (7 ∷ 8 ∷ []) c' r
write_bytes_lem_example = write_bytes_lem waiting stream (7 ∷ 8 ∷ []) refl

write_vectored_lem_example :
    (c' : Connection) × (r : IoResult ℕ) × (write_vectored conn reply ≡ ret (c', r))
    × Delivers (Socket.write_vectored stream reply) conn (concat reply) c' r
write_vectored_lem_example = write_vectored_lem conn stream reply refl

write_vectored_bytes_lem_example :
    (c' : Connection) × (r : IoResult ℕ) × (write_vectored_bytes conn reply ≡ ret (c', r))
    × Delivers (Socket.write_vectored stream reply) conn (queued reply) c' r
write_vectored_bytes_lem_example = write_vectored_bytes_lem conn stream reply refl

flush_lem_example :
    (c' : Connection) × (r : IoResult (Unit {0})) × (flush 10 waiting ≡ ret (some (c', r)))
    × (wire c' ≡ wire waiting)
    × ((unsent c' ≡ []) ⊎ ((k : ErrorKind) × (r ≡ err k) × (is_interrupted k ≡ false)))
    × (record c' { socket = waiting.socket; out_buffer = waiting.out_buffer } ≡ waiting)
unfolding interruptions
flush_lem_example = flush_lem 10 waiting stream refl (omega arith)

next_contiguous_lem_example :
    ((Excessive (some 3) (length (unread conn)) ⊎ (unread conn ≡ []))
      × (next_contiguous conn (some 3) ≡ ret (none, conn)))
    ⊎ ((k : ℕ) × Granted (some 3) (length (unread conn)) k
        × (front : List ℕ) × (c' : Connection) × (next_contiguous conn (some 3)
            ≡ ret (some front, c'))
        × Took conn k front c')
next_contiguous_lem_example = next_contiguous_lem conn (some 3)

next_vectored_lem_example :
    (Refused none (length (unread conn)) × (next_vectored conn none ≡ ret (none, conn)))
    ⊎ ((k : ℕ) × GrantedSome none (length (unread conn)) k
        × (parts : List (List ℕ)) × (c' : Connection) × (next_vectored conn none
            ≡ ret (some parts, c'))
        × Took conn k (joined parts) c')
next_vectored_lem_example = next_vectored_lem conn none

peek_lem_example :
    ((Excessive (some 3) (length (unread conn)) ⊎ (unread conn ≡ []))
      × (peek conn (some 3) ≡ ret none))
    ⊎ ((k : ℕ) × Granted (some 3) (length (unread conn)) k
        × (d : PeekData) × (peek conn (some 3) ≡ ret (some d))
        × (deref d ≡ take k (unread conn)))
peek_lem_example = peek_lem conn (some 3)

discard_lem_example :
    ((Excessive (some 4) (length (unread conn)) ⊎ (unread conn ≡ []))
      × (discard conn (some 4) ≡ ret (none, conn)))
    ⊎ ((k : ℕ) × Granted (some 4) (length (unread conn)) k
        × (c' : Connection) × (discard conn (some 4) ≡ ret (some k, c'))
        × Took conn k (take k (unread conn)) c')
discard_lem_example = discard_lem conn (some 4)

read_lem_example :
    (c' : Connection) × (read conn (0 ∷ 0 ∷ 0 ∷ []) ≡ ret (3, 1 ∷ 2 ∷ 3 ∷ [], c'))
    × Took conn 3 (1 ∷ 2 ∷ 3 ∷ []) c'
read_lem_example = read_lem conn (0 ∷ 0 ∷ 0 ∷ [])

abbrev speaking : Connection
speaking = record conn { codec = some raw }

send_lem_example :
    (c' : Connection) × (r : IoResult (Unit {0})) × (send speaking (bytes_mut (9 ∷ 8 ∷ []))
      ≡ ret (c', r))
    × Sends (ok tt) stream (9 ∷ 8 ∷ []) speaking c' r
unfolding Codec.encode
send_lem_example =
    send_lem speaking stream raw (bytes_mut (9 ∷ 8 ∷ [])) raw (9 ∷ 8 ∷ []) (ok tt) refl refl refl

abbrev newer : Gfd
newer = record { seq = 2; index_info = 0; fd = pos 7 }

reset_lem_example :
    let c' = reset waiting newer stream default_options (unix (97 ∷ [])) (unix (99 ∷ [])) 0 in
    (unread c' ≡ [])
    × (unsent c' ≡ [])
    × (record c' { io_buffer = none; in_buffer = none; out_buffer = none }
        ≡ new newer stream default_options (unix (97 ∷ [])) (unix (99 ∷ [])) 0)
reset_lem_example =
    reset_lem waiting newer stream default_options (unix (97 ∷ [])) (unix (99 ∷ [])) 0

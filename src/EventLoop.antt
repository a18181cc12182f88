-- ===== src/EventLoop.antt =====
-- src/event_loop.rs: the write half of an event loop's work on one connection, `process_write`. What
-- the slab has under the key is an argument. A `usize` counts the bytes of one call, which no queue in
-- memory overflows.
pub mod Batches
pub mod Reading
pub mod Handle
pub mod Method
pub mod State
pub mod Starting
pub mod Closing
pub mod Opening
pub mod Serving
pub mod Commands
pub mod Accepting
pub mod Running
pub mod Invariant
pub mod Preserving
mod Tests
use rnet.Prelude.{
  ℕ, zero, suc, ◌+◌, Bool, true, false, List, [], ◌∷◌, Option, none, some, map, leb, take,
}
use rnet.Io.{IoResult, ok, err, Run, ret, ◌>>=◌, unwrap, is_interrupted, is_would_block}
use rnet.Extern.Bytes.{BytesApi}
use rnet.Extern.Streams.{StreamApi}
use rnet.Codec.{CodecApi}
use rnet.Socket
use rnet.Socket.{Socket}
use rnet.Connection.{Connection, chunks}
use rnet.Connection.Output.{nonempty, io_max, consume}

pub data IoStatus : Type 0 where
  completed yield shutdown : IoStatus
  closed : (graceful : Bool) → IoStatus

module _ ⦃bytes : BytesApi⦄ ⦃streams : StreamApi⦄ ⦃codecs : CodecApi⦄ where
  open bytes use {Bytes, chunk}

  -- `while !out_buffer.is_empty()`; `none` means that the fuel ran out.
  unfoldable pub write_batch :
      ℕ
      → (max_batch_size bytes_written : ℕ) → Socket
      → List Bytes
      → Option (Socket × List Bytes × IoStatus)
  write_batch zero max_batch_size bytes_written s q = none
  write_batch (suc fuel) max_batch_size bytes_written s q = elim (nonempty q) [
    | false ↦ some (s, q, completed)
    | true ↦ elim (leb max_batch_size bytes_written) [
      | true ↦ some (s, q, yield)
      | false ↦
          let (s', res) = Socket.write_vectored s (map chunk (take io_max q)) in
          elim res [
            | ok n ↦ elim n [
              | zero ↦ some (s', q, closed false)
              | suc m ↦
                  write_batch fuel max_batch_size (bytes_written + suc m) s' (consume (suc m) q)
            ]
            | err e ↦ elim (is_would_block e) [
              | true ↦ some (s', q, completed)
              | false ↦ elim (is_interrupted e) [
                | true ↦ write_batch fuel max_batch_size bytes_written s' q
                | false ↦ some (s', q, closed false)
              ]
            ]
          ]
    ]
  ]

  after_batch :
      Connection → Option (Socket × List Bytes × IoStatus) → Option (Option Connection × IoStatus)
  after_batch c none = none
  after_batch c (some (s, q, status)) =
      some (some (record c { socket = some s; out_buffer = some q }), status)

  write_queue : ℕ → ℕ → Connection → List Bytes → Run (Option (Option Connection × IoStatus))
  unfolding after_batch
  write_queue fuel max_batch_size c [] = ret (some (some c, completed))
  write_queue fuel max_batch_size c (b ∷ q) = do
    socket ← unwrap c.socket
    ret (after_batch c (write_batch fuel max_batch_size 0 socket (b ∷ q)))

  unfoldable pub process_write :
      ℕ → ℕ → Option Connection → Run (Option (Option Connection × IoStatus))
  unfolding write_queue
  process_write fuel max_batch_size none = ret (some (none, completed))
  process_write fuel max_batch_size (some c) =
      write_queue fuel max_batch_size c (chunks c.out_buffer)

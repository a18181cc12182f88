-- ===== src/EventLoop/Reading.antt =====
-- The read half of src/event_loop.rs, `process_read`. The user's
-- `on_traffic` is an argument, with a state of its own. The loop's shared buffer always has
-- `read_buffer_cap` bytes of room when the socket is read, so only that number is kept.
pub mod Rounds
pub mod Progress
pub mod Order
pub mod Lending
use rnet.Prelude.{
  ℕ, zero, suc, ◌+◌, Bool, true, false, List, [], ◌∷◌, Option, none, some, leb, length,
}
use rnet.Prelude.Text.{is_empty}
use rnet.Io.{IoResult, ok, err, Run, ret, panic, is_would_block}
use rnet.Extern.Bytes.{BytesApi}
use rnet.Extern.Streams.{StreamApi}
use rnet.Codec.{CodecApi}
use rnet.Socket
use rnet.Socket.{Socket}
use rnet.Connection.{Connection}
use rnet.Handler.{Action, no_action, close_it, shut_down}
use rnet.EventLoop.{IoStatus, completed, yield, shutdown, closed}

module _ ⦃bytes : BytesApi⦄ ⦃streams : StreamApi⦄ ⦃codecs : CodecApi⦄ where
  open bytes use {BytesMut, contents, extend_from_slice}

  -- `conn.io_buffer = Some(io_buffer)`, with what has just been read from the socket.
  abbrev pub handed : Connection → Socket → List ℕ → Connection
  handed c s bs = record c { socket = some s; io_buffer = some (extend_from_slice bytes.new bs) }

  -- What the handler left of it goes behind `in_buffer`.
  abbrev pub put_behind : Option BytesMut → BytesMut → Option BytesMut
  put_behind (some in_buffer) io_buffer = some (extend_from_slice in_buffer (contents io_buffer))
  put_behind none io_buffer = some io_buffer

  abbrev pub settle_buffer : Connection → Option BytesMut → Connection
  settle_buffer c none = c
  settle_buffer c (some io_buffer) = elim (is_empty (contents io_buffer)) [
    | true ↦ record c { io_buffer = none }
    | false ↦ record c { io_buffer = none; in_buffer = put_behind c.in_buffer io_buffer }
  ]

  unfoldable pub settle : Connection → Connection
  settle c = settle_buffer c c.io_buffer

  module _ {H : Type 0} (on_traffic : H → Connection → H × Connection × Action) where
    -- The loop. `none` means that the fuel ran out.
    unfoldable pub read_loop :
        ℕ
        → (max_batch_size read_buffer_cap bytes_read : ℕ) → H
        → Connection
        → Run (Option (H × Connection × IoStatus))
    read_loop zero max size bytes_read h c = ret none
    read_loop (suc fuel) max size bytes_read h c = elim (leb max bytes_read) [
      | true ↦ ret (some (h, c, yield))
      | false ↦ elim c.socket [
        | none ↦ panic
        | some s ↦
            let (s', res) = Socket.read s size in
            elim res [
              | err e ↦ elim (is_would_block e) [
                | true ↦ ret (some (h, record c { socket = some s' }, completed))
                | false ↦ ret (some (h, record c { socket = some s' }, closed false))
              ]
              | ok bs ↦ elim bs [
                | [] ↦ ret (some (h, record c { socket = some s' }, closed true))
                | b ∷ more ↦
                    let (h', c', action) = on_traffic h (handed c s' (b ∷ more)) in
                    elim action [
                      | no_action ↦
                          read_loop fuel max size (bytes_read + length (b ∷ more)) h' (settle c')
                      | close_it ↦ ret (some (h', c', closed true))
                      | shut_down ↦ ret (some (h', c', shutdown))
                    ]
              ]
            ]
      ]
    ]

    in_slab :
        Run (Option (H × Connection × IoStatus)) → Run (Option (H × Option Connection × IoStatus))
    in_slab panic = panic
    in_slab (ret none) = ret none
    in_slab (ret (some (h, c, status))) = ret (some (h, some c, status))

    -- `process_read`, with what the slab has under the key.
    unfoldable pub process_read :
        ℕ
        → (max_batch_size read_buffer_cap : ℕ) → H
        → Option Connection
        → Run (Option (H × Option Connection × IoStatus))
    unfolding in_slab
    process_read fuel max size h none = ret (some (h, none, completed))
    process_read fuel max size h (some c) = elim c.closed [
      | true ↦ ret (some (h, some c, completed))
      | false ↦ in_slab (read_loop fuel max size 0 h c)
    ]

-- ===== src/Connection/Recycle.antt =====
-- `reset` of src/connection.rs: a pooled connection starts over.
use rnet.Prelude.{ℕ, ◌≡◌, refl, ap₂, List, [], ◌++◌, Option, none, some}
use rnet.Extern.Bytes.{BytesApi}
use rnet.Extern.Streams.{StreamApi}
use rnet.Codec.{CodecApi}
use rnet.Gfd.{Gfd}
use rnet.Options.{Options}
use rnet.SocketAddr.{NetworkAddress}
use rnet.Socket.{Socket}
use rnet.Connection.{
  Connection, new, reset, cleared, cleared_queue, chunks, queued, held, unread, unsent,
}

module _ ⦃bytes : BytesApi⦄ ⦃streams : StreamApi⦄ ⦃codecs : CodecApi⦄ where
  open bytes use {BytesMut, Bytes}

  held-cleared : (b : Option BytesMut) → held (cleared b) ≡ []
  held-cleared none = refl
  held-cleared (some b) = bytes.contents-clear b

  queued-cleared_queue : (q : Option (List Bytes)) → queued (chunks (cleared_queue q)) ≡ []
  queued-cleared_queue none = refl
  queued-cleared_queue (some q) = refl

  -- After `reset` no byte of the former peer is left to be read or sent, and but for buffers that
  -- are empty the connection is one that `new` makes.
  pub reset_lem :
      (c : Connection) (gfd : Gfd) (socket : Socket) (options : Options)
      (local_addr peer_addr : NetworkAddress) (handle : ℕ)
      → let c' = reset c gfd socket options local_addr peer_addr handle in
        (unread c' ≡ [])
        × (unsent c' ≡ [])
        × (record c' { io_buffer = none; in_buffer = none; out_buffer = none }
            ≡ new gfd socket options local_addr peer_addr handle)
  unfolding reset new
  reset_lem c gfd socket options local_addr peer_addr handle = (
    ap₂ ◌++◌ (held-cleared c.in_buffer) (held-cleared c.io_buffer),
    queued-cleared_queue c.out_buffer,
    refl,
  )

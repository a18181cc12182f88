-- ===== src/Connection.antt =====
-- src/connection.rs: a connection of an event loop. Bytes that arrived wait in `in_buffer`, then
-- `io_buffer`; bytes to send wait in `out_buffer`. A method on `&mut self` returns the connection;
-- `Run` tells a panic apart. Connection/Input and Connection/Output have the methods.
pub mod Input
pub mod Output
pub mod Recycle
mod Tests
use rnet.Prelude.{ℕ, Bool, false, List, [], ◌∷◌, ◌++◌, Option, none, some, map, ◌+◌, length}
use rnet.Io.{IoResult, ok, err, other, Run, ret, ◌>>=◌, concat}
use rnet.Extern.Bytes.{BytesApi}
use rnet.Extern.Streams.{StreamApi}
use rnet.Gfd.{Gfd, slab_index}
use rnet.Options.{Options}
use rnet.SocketAddr.{NetworkAddress}
use rnet.Socket.{Socket}
use rnet.Socket
use rnet.Codec.{CodecApi}
use rnet.Command.{Command, Priority, close, priority}

module _ ⦃bytes : BytesApi⦄ ⦃streams : StreamApi⦄ ⦃codecs : CodecApi⦄ where
  open bytes use {BytesMut, Bytes, contents, chunk, clear}
  open codecs use {Codec}

  -- `handle` is the event loop that the shared handle belongs to.
  pub record Connection : Type 0 where
    pub gfd : Gfd
    pub socket : Option Socket
    pub local_addr : NetworkAddress
    pub peer_addr : NetworkAddress
    pub closed : Bool
    pub io_buffer : Option BytesMut
    pub in_buffer : Option BytesMut
    pub out_buffer : Option (List Bytes)
    pub handle : ℕ
    pub options : Options
    pub codec : Option Codec

  unfoldable pub new : Gfd → Socket → Options → NetworkAddress → NetworkAddress → ℕ → Connection
  new gfd socket options local_addr peer_addr handle = record {
    gfd = gfd;
    socket = some socket;
    local_addr = local_addr;
    peer_addr = peer_addr;
    closed = false;
    io_buffer = none;
    in_buffer = none;
    out_buffer = none;
    handle = handle;
    options = options;
    codec = none;
  }

  -- `if let Some(buf) = ….as_mut() { buf.clear(); }`
  abbrev pub cleared : Option BytesMut → Option BytesMut
  cleared (some b) = some (clear b)
  cleared none = none

  abbrev pub cleared_queue : Option (List Bytes) → Option (List Bytes)
  cleared_queue (some q) = some []
  cleared_queue none = none

  unfoldable pub reset :
      Connection → Gfd → Socket → Options → NetworkAddress → NetworkAddress → ℕ → Connection
  reset c gfd socket options local_addr peer_addr handle = record {
    gfd = gfd;
    socket = some socket;
    local_addr = local_addr;
    peer_addr = peer_addr;
    closed = false;
    io_buffer = cleared c.io_buffer;
    in_buffer = cleared c.in_buffer;
    out_buffer = cleared_queue c.out_buffer;
    handle = handle;
    options = options;
    codec = none;
  }

  -- The bytes of a buffer that may be missing.
  abbrev pub held : Option BytesMut → List ℕ
  held (some b) = contents b
  held none = []

  -- The bytes that wait to be read by the handler, oldest first.
  abbrev pub unread : Connection → List ℕ
  unread c = held c.in_buffer ++ held c.io_buffer

  -- The chunks that wait to be sent, oldest first.
  abbrev pub chunks : Option (List Bytes) → List Bytes
  chunks (some q) = q
  chunks none = []

  abbrev pub queued : List Bytes → List ℕ
  queued q = concat (map chunk q)

  abbrev pub unsent : Connection → List ℕ
  unsent c = queued (chunks c.out_buffer)

  unfoldable pub in_buf_len : Connection → ℕ
  in_buf_len c = length (held c.in_buffer)

  unfoldable pub io_buf_len : Connection → ℕ
  io_buf_len c = length (held c.io_buffer)

  -- `set_codec`: from here on messages go through the codec.
  unfoldable pub set_codec : Connection → Codec → Connection
  set_codec c codec = record c { codec = some codec }

  -- `close`: what is triggered on the handle, with its priority.
  unfoldable pub close_request : Connection → ℕ × Priority × Command
  close_request c = let cmd : Command = close (slab_index c.gfd) in (c.handle, priority cmd, cmd)

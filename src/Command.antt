-- ===== src/Command.antt =====
-- src/command.rs: the messages to an event loop, and how urgent each is.
use rnet.Prelude.{ℕ, Bool, true, false}
use rnet.Gfd.{Gfd}
use rnet.Socket.{Socket}
use rnet.SocketAddr.{NetworkAddress}
use rnet.Extern.Bytes.{BytesApi}
use rnet.Extern.Streams.{StreamApi}

-- `Prioity`, in the order of the source, from which `<` is derived.
pub data Priority : Type 0 where
  high low : Priority

-- The derived `>`.
abbrev pub above : Priority → Priority → Bool
above low high = true
above _ _ = false

module _ ⦃bytes : BytesApi⦄ ⦃streams : StreamApi⦄ where
  open bytes use {Bytes}

  pub data Command : Type 0 where
    none : Command
    async_write : Gfd → Bytes → Command
    register : Socket → NetworkAddress → NetworkAddress → Command
    close : ℕ → Command
    wake : Command
    read : ℕ → Command
    write : ℕ → Command
    shutdown : Command

  unfoldable pub priority : Command → Priority
  priority none = low
  priority (async_write g d) = high
  priority wake = low
  priority (register s l p) = low
  priority (close k) = low
  priority (read k) = high
  priority (write k) = high
  priority shutdown = high

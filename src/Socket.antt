-- ===== src/Socket.antt =====
-- src/socket.rs on a Unix target: a TCP or a Unix stream, and the calls passed on to it. What the
-- streams do is Extern/Streams.
pub mod Sent
use rnet.Prelude.{ℕ, Bool, List}
use rnet.Prelude.Int.{ℤ}
use rnet.Io.{IoResult, ok}
use rnet.Extern.Streams.{StreamApi}

module _ ⦃streams : StreamApi⦄ where
  open streams use {Stream}

  pub data Socket : Type 0 where
    tcp : Stream → Socket
    unix : Stream → Socket

  unfoldable pub fd : Socket → ℤ
  fd (tcp s) = streams.fd s
  fd (unix s) = streams.fd s

  -- A Unix stream has no such option, and reports success.
  unfoldable pub set_nodelay : Socket → Bool → Socket × IoResult (Unit {0})
  set_nodelay (tcp s) nodelay = let (s', res) = streams.set_nodelay s nodelay in (tcp s', res)
  set_nodelay (unix s) nodelay = (unix s, ok tt)

  -- `impl Read`, `impl Write`.
  unfoldable pub read : Socket → ℕ → Socket × IoResult (List ℕ)
  read (tcp s) n = let (s', res) = streams.read s n in (tcp s', res)
  read (unix s) n = let (s', res) = streams.read s n in (unix s', res)

  unfoldable pub write : Socket → List ℕ → Socket × IoResult ℕ
  write (tcp s) buf = let (s', res) = streams.write s buf in (tcp s', res)
  write (unix s) buf = let (s', res) = streams.write s buf in (unix s', res)

  unfoldable pub write_vectored : Socket → List (List ℕ) → Socket × IoResult ℕ
  write_vectored (tcp s) bufs = let (s', res) = streams.write_vectored s bufs in (tcp s', res)
  write_vectored (unix s) bufs = let (s', res) = streams.write_vectored s bufs in (unix s', res)

  unfoldable pub flush : Socket → Socket × IoResult (Unit {0})
  flush (tcp s) = let (s', res) = streams.flush s in (tcp s', res)
  flush (unix s) = let (s', res) = streams.flush s in (unix s', res)

  -- What the stream of a socket has accepted, and how often it may still be interrupted.
  unfoldable pub sent : Socket → List ℕ
  sent (tcp s) = streams.sent s
  sent (unix s) = streams.sent s

  unfoldable pub interruptions : Socket → ℕ
  interruptions (tcp s) = streams.interruptions s
  interruptions (unix s) = streams.interruptions s

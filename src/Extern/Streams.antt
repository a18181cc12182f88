-- ===== src/Extern/Streams.antt =====
-- A connected, non-blocking stream of `mio::net`, and the calls that src/socket.rs makes on it.
use rnet.Prelude.{ℕ, ◌≤◌, ◌<◌, ◌≡◌, Bool, List, ◌++◌, length, take}
use rnet.Prelude.Int.{ℤ}
use rnet.Io.{ErrorKind, interrupted, IoResult, ok, err, concat}

-- `sent` is what the stream has accepted for sending since it was opened. `interruptions` bounds
-- how often calls on it may still be cut short by a signal: an interrupted write lowers it.
pub record StreamApi : Type 1 where
  pub Stream : Type 0
  pub fd : Stream → ℤ
  pub sent : Stream → List ℕ
  pub interruptions : Stream → ℕ
  pub set_nodelay : Stream → Bool → Stream × IoResult (Unit {0})
  -- `read` into a buffer of so many bytes, with the bytes that were read.
  pub read : Stream → ℕ → Stream × IoResult (List ℕ)
  pub write : Stream → List ℕ → Stream × IoResult ℕ
  pub write_vectored : Stream → List (List ℕ) → Stream × IoResult ℕ
  pub flush : Stream → Stream × IoResult (Unit {0})
  pub read-ok : (s : Stream) (n : ℕ) (bs : List ℕ) → (read s n).1 ≡ ok bs → length bs ≤ n
  pub read-sent : (s : Stream) (n : ℕ) → sent (read s n).0 ≡ sent s
  pub write-ok :
      (s : Stream) (buf : List ℕ) (n : ℕ)
      → (write s buf).1 ≡ ok n
      → (n ≤ length buf) × (sent (write s buf).0 ≡ sent s ++ take n buf)
  pub write-err :
      (s : Stream) (buf : List ℕ) (e : ErrorKind)
      → (write s buf).1 ≡ err e
      → sent (write s buf).0 ≡ sent s
  pub write_vectored-ok :
      (s : Stream) (bufs : List (List ℕ)) (n : ℕ)
      → (write_vectored s bufs).1 ≡ ok n
      → (n ≤ length (concat bufs))
        × (sent (write_vectored s bufs).0 ≡ sent s ++ take n (concat bufs))
  pub write_vectored-err :
      (s : Stream) (bufs : List (List ℕ)) (e : ErrorKind)
      → (write_vectored s bufs).1 ≡ err e
      → sent (write_vectored s bufs).0 ≡ sent s
  pub write_vectored-interruptions :
      (s : Stream) (bufs : List (List ℕ))
      → interruptions (write_vectored s bufs).0 ≤ interruptions s
  pub write_vectored-interrupted :
      (s : Stream) (bufs : List (List ℕ))
      → (write_vectored s bufs).1 ≡ err interrupted
      → interruptions (write_vectored s bufs).0 < interruptions s
  pub flush-sent : (s : Stream) → sent (flush s).0 ≡ sent s

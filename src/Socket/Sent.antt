-- ===== src/Socket/Sent.antt =====
-- The laws of a stream, carried over to the sockets of src/socket.rs.
use rnet.Prelude.{ℕ, ◌≤◌, ◌<◌, ◌≡◌, List, ◌++◌, length, take}
use rnet.Io.{ErrorKind, interrupted, ok, err, concat}
use rnet.Extern.Streams.{StreamApi}
use rnet.Socket.{Socket, tcp, unix, write, write_vectored, flush, sent, interruptions}

module _ ⦃streams : StreamApi⦄ where
  pub write-ok :
      (s : Socket) (buf : List ℕ) (n : ℕ)
      → (write s buf).1 ≡ ok n
      → (n ≤ length buf) × (sent (write s buf).0 ≡ sent s ++ take n buf)
  unfolding write sent
  write-ok (tcp s) = streams.write-ok s
  write-ok (unix s) = streams.write-ok s

  pub write-err :
      (s : Socket) (buf : List ℕ) (e : ErrorKind)
      → (write s buf).1 ≡ err e
      → sent (write s buf).0 ≡ sent s
  unfolding write sent
  write-err (tcp s) = streams.write-err s
  write-err (unix s) = streams.write-err s

  pub write_vectored-ok :
      (s : Socket) (bufs : List (List ℕ)) (n : ℕ)
      → (write_vectored s bufs).1 ≡ ok n
      → (n ≤ length (concat bufs))
        × (sent (write_vectored s bufs).0 ≡ sent s ++ take n (concat bufs))
  unfolding write_vectored sent
  write_vectored-ok (tcp s) = streams.write_vectored-ok s
  write_vectored-ok (unix s) = streams.write_vectored-ok s

  pub write_vectored-err :
      (s : Socket) (bufs : List (List ℕ)) (e : ErrorKind)
      → (write_vectored s bufs).1 ≡ err e
      → sent (write_vectored s bufs).0 ≡ sent s
  unfolding write_vectored sent
  write_vectored-err (tcp s) = streams.write_vectored-err s
  write_vectored-err (unix s) = streams.write_vectored-err s

  pub write_vectored-interruptions :
      (s : Socket) (bufs : List (List ℕ))
      → interruptions (write_vectored s bufs).0 ≤ interruptions s
  unfolding write_vectored interruptions
  write_vectored-interruptions (tcp s) = streams.write_vectored-interruptions s
  write_vectored-interruptions (unix s) = streams.write_vectored-interruptions s

  pub write_vectored-interrupted :
      (s : Socket) (bufs : List (List ℕ))
      → (write_vectored s bufs).1 ≡ err interrupted
      → interruptions (write_vectored s bufs).0 < interruptions s
  unfolding write_vectored interruptions
  write_vectored-interrupted (tcp s) = streams.write_vectored-interrupted s
  write_vectored-interrupted (unix s) = streams.write_vectored-interrupted s

  pub flush-sent : (s : Socket) → sent (flush s).0 ≡ sent s
  unfolding flush sent
  flush-sent (tcp s) = streams.flush-sent s
  flush-sent (unix s) = streams.flush-sent s

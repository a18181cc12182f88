-- ===== src/Connection/Output/Keeping.antt =====
-- `write` of src/connection.rs leaves a connection its handle and its socket.
use rnet.Prelude.{
  ℕ, ◌≡◌, refl, ap, subst, Bool, true, false, List, some, ltb, length, if◌then◌else◌,
}
use rnet.Io.{IoResult, ok, err, Run, ret, panic, ◌>>=◌, unwrap}
use rnet.Extern.Bytes.{BytesApi, slice_after}
use rnet.Extern.Streams.{StreamApi}
use rnet.Codec.{CodecApi}
use rnet.Socket
use rnet.Socket.{Socket}
use rnet.Connection.{Connection, chunks}
use rnet.Connection.Output.{put_off, nonempty, after_write, write}
use rnet.Connection.Output.Delivery.{write_lem}

module _ ⦃bytes : BytesApi⦄ ⦃streams : StreamApi⦄ ⦃codecs : CodecApi⦄ where
  abbrev IsOpen : Run (Connection × IoResult ℕ) → Type 0
  IsOpen (ret (c, r)) = (s : Socket) × (c.socket ≡ some s)
  IsOpen panic = Unit {0}

  if-IsOpen :
      (b : Bool) (m k : Run (Connection × IoResult ℕ))
      → IsOpen m
      → IsOpen k
      → IsOpen (if b then m else k)
  if-IsOpen true m k first second = first
  if-IsOpen false m k first second = second

  bind-IsOpen :
      {A : Type 0} (m : Run A) (f : A → Run (Connection × IoResult ℕ))
      → ((a : A) → IsOpen (f a))
      → IsOpen (m >>= f)
  bind-IsOpen (ret a) f all = all a
  bind-IsOpen panic f all = tt

  after_write-IsOpen :
      (c : Connection) (s : Socket) (buf : List ℕ) (res : IoResult ℕ)
      → IsOpen (after_write (record c { socket = some s }) buf res)
  unfolding after_write
  after_write-IsOpen c s buf (ok n) =
      if-IsOpen (ltb n (length buf)) _ _ (bind-IsOpen (slice_after buf n) _ (λ rest. (s, refl)))
        (s, refl)
  after_write-IsOpen c s buf (err e) = if-IsOpen (put_off e) _ _ (s, refl) (s, refl)

  write-IsOpen :
      (c : Connection) (s : Socket) (buf : List ℕ) → c.socket ≡ some s → IsOpen (write c buf)
  unfolding write
  write-IsOpen c s buf at_s =
      if-IsOpen (nonempty (chunks c.out_buffer)) _ _ (s, at_s)
        (bind-IsOpen (unwrap c.socket) _
          (λ t. after_write-IsOpen c (Socket.write t buf).0 buf (Socket.write t buf).1))

  -- A write on a connection with a socket does not panic, and leaves it the handle and a socket.
  pub write-open :
      (c : Connection) (s : Socket) (buf : List ℕ)
      → c.socket ≡ some s
      → (c' : Connection) × (r : IoResult ℕ) × (write c buf ≡ ret (c', r))
        × (c'.gfd ≡ c.gfd)
        × ((s' : Socket) × (c'.socket ≡ some s'))
  write-open c s buf at_s =
      let (c', r, e, delivers) = write_lem c s buf at_s in
      (
        c',
        r,
        e,
        ap (λ (d : Connection). d.gfd) delivers.frame,
        subst IsOpen e (write-IsOpen c s buf at_s),
      )

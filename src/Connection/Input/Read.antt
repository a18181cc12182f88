-- ===== src/Connection/Input/Read.antt =====
-- `Read::read` of src/connection.rs copies from the front of what is unread.
use rnet.Prelude.{
  ℕ, ◌-◌, ◌≤◌, ◌≡◌, ==_iff, inl, inr, refl, ap, ap₂, sym, ◌∙◌, true, List, ◌++◌, Option, none, some,
  ltb, leb, ◌==◌, length, take, drop, min, arith, Bool-cases, append-nil, take-append, drop-append,
  take-min, drop-min, take_nothing, drop_nothing, take-nil, drop-nil, length-take, le→leb,
}
use rnet.Io.{Run, ret, ◌>>=◌}
use rnet.Extern.Bytes.{BytesApi}
use rnet.Extern.Streams.{StreamApi}
use rnet.Codec.{CodecApi}
use rnet.Connection.{Connection, held, unread}
use rnet.Connection.Input.{unless_empty, read_in, read_io, read_room, read}
use rnet.Connection.Input.Taking.{Took, held-unless_empty, frame_trans}

module _ ⦃bytes : BytesApi⦄ ⦃streams : StreamApi⦄ ⦃codecs : CodecApi⦄ where
  open bytes use {BytesMut, contents, split_to, advance, extend_from_slice}

  -- What the first step, at an in buffer with the bytes `s`, leaves to the second.
  FromIn : Connection → ℕ → List ℕ → Run (List ℕ × Connection) → Type 0
  FromIn c room s r =
      (c' : Connection) × (r ≡ ret (take room s, c'))
      × (held c'.in_buffer ≡ drop room s)
      × (record c' { in_buffer = c.in_buffer } ≡ c)

  read_in-FromIn :
      (c : Connection) (room : ℕ) (b : Option BytesMut)
      → c.in_buffer ≡ b
      → FromIn c room (held b) (read_in c room b)
  unfolding FromIn read_in
  read_in-FromIn c room none at_in =
      (c, rw (take-nil room), ap held at_in ∙ sym (drop-nil room), refl)
  read_in-FromIn c room (some b) at_in =
      let len = min room (length (contents b)) in
      let fits : len ≤ length (contents b) = omega arith in
      elim (Bool-cases (ltb 0 len)) [
        | inl part ↦
            let within : leb len (length (contents b)) ≡ true =
              le→leb len (length (contents b)) fits in
            (
              record c { in_buffer = unless_empty (advance b len) },
              rw (part, within, take-min room (contents b)),
              held-unless_empty (advance b len)
                  ∙ bytes.contents-advance b len fits
                  ∙ drop-min room (contents b),
              refl,
            )
        | inr nothing ↦
            let none_taken : len ≡ 0 = ground arith in
            (
              record c { in_buffer = unless_empty b },
              rw (nothing, take_nothing room (contents b) none_taken),
              held-unless_empty b ∙ sym (drop_nothing room (contents b) none_taken),
              refl,
            )
      ]

  -- What the second step adds, at an io buffer with the bytes `s`.
  FromIo : Connection → ℕ → List ℕ → List ℕ → Run (List ℕ × Connection) → Type 0
  FromIo c room copied s r =
      (c' : Connection) × (r ≡ ret (copied ++ take (room - length copied) s, c'))
      × (held c'.io_buffer ≡ drop (room - length copied) s)
      × (record c' { io_buffer = c.io_buffer } ≡ c)

  read_io-FromIo :
      (c : Connection) (room : ℕ) (copied : List ℕ) (io : Option BytesMut)
      → c.io_buffer ≡ io
      → FromIo c room copied (held io) (read_io c room copied io)
  unfolding FromIo read_io
  read_io-FromIo c room copied none at_io = (
    c,
    rw (take-nil (room - length copied), append-nil copied),
    ap held at_io ∙ sym (drop-nil (room - length copied)),
    refl,
  )
  read_io-FromIo c room copied (some io) at_io =
      let m = room - length copied in
      let len = min m (length (contents io)) in
      let fits : len ≤ length (contents io) = omega arith in
      elim (Bool-cases (ltb 0 len)) [
        | inl part ↦
            let within : leb len (length (contents io)) ≡ true =
              le→leb len (length (contents io)) fits in
            (
              record c { io_buffer = some (advance io len) },
              rw (part, within, take-min m (contents io)),
              bytes.contents-advance io len fits ∙ drop-min m (contents io),
              refl,
            )
        | inr nothing ↦
            let none_taken : len ≡ 0 = ground arith in
            (
              c,
              rw (nothing, take_nothing m (contents io) none_taken, append-nil copied),
              ap held at_io ∙ sym (drop_nothing m (contents io) none_taken),
              refl,
            )
      ]

  ReadRoom : Connection → ℕ → Run (List ℕ × Connection) → Type 0
  ReadRoom c room r =
      (c' : Connection) × (r ≡ ret (take room (unread c), c'))
      × (unread c' ≡ drop room (unread c))
      × (record c' { in_buffer = c.in_buffer; io_buffer = c.io_buffer } ≡ c)

  read_room-ReadRoom : (c : Connection) (room : ℕ) → ReadRoom c room (read_room c room)
  unfolding ReadRoom FromIn FromIo read_room
  read_room-ReadRoom c room =
      let in_bytes = held c.in_buffer in
      let io_bytes = held c.io_buffer in
      let (c', first, kept, frame) = read_in-FromIn c room c.in_buffer refl in
      let same_io : c'.io_buffer ≡ c.io_buffer = ap (λ (x : Connection). x.io_buffer) frame in
      let size = length-take room in_bytes in
      let parts = take-append room in_bytes io_bytes in
      let leaves = drop-append room in_bytes io_bytes in
      elim (Bool-cases (length (take room in_bytes) == room)) [
        | inl full ↦
            let same = (==_iff _ room).0 full in
            let none_left : room - length in_bytes ≡ 0 = omega arith in
            (
              c',
              rw (first, full)
                  (ap (λ (s : List ℕ). ret (s, c'))
                    (sym (
                      parts
                      ∙ ap (λ (m : ℕ). take room in_bytes ++ take m io_bytes) none_left
                      ∙ append-nil (take room in_bytes)))),
              ap₂ ◌++◌ kept (ap held same_io)
                  ∙ sym (leaves ∙ ap (λ (m : ℕ). drop room in_bytes ++ drop m io_bytes) none_left),
              ap (λ (x : Connection). record x { io_buffer = c.io_buffer }) frame ∙ refl,
            )
        | inr short ↦
            let m : room - length (take room in_bytes) ≡ room - length in_bytes = omega arith in
            let (c'', second, kept', frame') =
              read_io-FromIo c' room (take room in_bytes) c'.io_buffer refl in
            let same_in : c''.in_buffer ≡ c'.in_buffer =
              ap (λ (x : Connection). x.in_buffer) frame' in
            (
              c'',
              rw (first, short)
                  (second
                    ∙ ap (λ (s : List ℕ). ret (s, c''))
                        (ap₂ (λ (j : ℕ) (s : List ℕ). take room in_bytes ++ take j s) m
                            (ap held same_io)
                          ∙ sym parts)),
              ap₂ ◌++◌ (ap held same_in ∙ kept)
                    (kept' ∙ ap₂ (λ (j : ℕ) (s : List ℕ). drop j s) m (ap held same_io))
                  ∙ sym leaves,
              frame_trans c'' frame frame',
            )
      ]

  read_of :
      (c : Connection) (buf copied : List ℕ) (c' : Connection)
      → read_room c (length buf) ≡ ret (copied, c')
      → read c buf ≡ ret (length copied, copied ++ drop (length copied) buf, c')
  unfolding read
  read_of c buf copied c' e =
      ap
        (λ (r : Run (List ℕ × Connection)).
          r >>= λ (t : List ℕ × Connection). ret (length t.0, t.0 ++ drop (length t.0) buf, t.1))
        e

  -- `read` copies what is unread, from its front, as far as `buf` has room, to the front of `buf`,
  -- whose other bytes stay, and returns the number of bytes; what was copied is no longer
  -- unread, and it never panics or fails.
  pub read_lem :
      (c : Connection) (buf : List ℕ)
      → let k = min (length buf) (length (unread c)) in
        (c' : Connection) × (read c buf ≡ ret (k, take k (unread c) ++ drop k buf, c'))
        × Took c k (take k (unread c)) c'
  unfolding ReadRoom
  read_lem c buf =
      let room = length buf in
      let (c', e, left, frame) = read_room-ReadRoom c room in
      let size = length-take room (unread c) in
      let same = take-min room (unread c) in
      (
        c',
        read_of c buf (take room (unread c)) c' e
            ∙ ap₂ (λ (k : ℕ) (s : List ℕ). ret (k, s ++ drop k buf, c')) size (sym same),
        record { taken = refl; left = left ∙ sym (drop-min room (unread c)); frame = frame },
      )

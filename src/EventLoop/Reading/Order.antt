-- ===== src/EventLoop/Reading/Order.antt =====
-- The order of the bytes over the rounds of `process_read` in src/event_loop.rs.
use rnet.Prelude.{
  ℕ, ◌≡◌, refl, inl, inr, ap, sym, ◌∙◌, true, false, List, [], ◌∷◌, ◌++◌, Option, none, some, arith,
  Bool-cases, append-nil,
}
use rnet.Prelude.Text.{is_empty}
use rnet.Extern.Bytes.{BytesApi}
use rnet.Extern.Streams.{StreamApi}
use rnet.Codec.{CodecApi}
use rnet.Socket.{Socket}
use rnet.Connection.{Connection, held, unread}
use rnet.EventLoop.Reading.{handed, put_behind, settle_buffer, settle}

module _ ⦃bytes : BytesApi⦄ ⦃streams : StreamApi⦄ ⦃codecs : CodecApi⦄ where
  open bytes use {BytesMut, contents, extend_from_slice}

  held-put_behind :
      (b : Option BytesMut) (io_buffer : BytesMut)
      → held (put_behind b io_buffer) ≡ held b ++ contents io_buffer
  held-put_behind none io_buffer = refl
  held-put_behind (some b) io_buffer = bytes.contents-extend_from_slice b (contents io_buffer)

  is_empty-nil : (xs : List ℕ) → is_empty xs ≡ true → xs ≡ []
  is_empty-nil [] h = refl
  is_empty-nil (x ∷ xs) h = absurd (ground arith)

  drops :
      (c : Connection) (b : BytesMut)
      → is_empty (contents b) ≡ true
      → settle_buffer c (some b) ≡ record c { io_buffer = none }
  drops c b empty = rw (settle_buffer, empty)

  moves :
      (c : Connection) (b : BytesMut)
      → is_empty (contents b) ≡ false
      → settle_buffer c (some b)
        ≡ record c { io_buffer = none; in_buffer = put_behind c.in_buffer b }
  moves c b full = rw (settle_buffer, full)

  settle_buffer_lem :
      (c : Connection) (b : Option BytesMut)
      → c.io_buffer ≡ b
      → (unread (settle_buffer c b) ≡ held c.in_buffer ++ held b)
        × ((settle_buffer c b).io_buffer ≡ none)
  settle_buffer_lem c none e = (ap (λ (x : Option BytesMut). held c.in_buffer ++ held x) e, e)
  settle_buffer_lem c (some b) e = elim (Bool-cases (is_empty (contents b))) [
    | inl empty ↦
        let e' = drops c b empty in
        (
          ap unread e' ∙ ap (◌++◌ (held c.in_buffer)) (sym (is_empty-nil (contents b) empty)),
          ap (λ (x : Connection). x.io_buffer) e',
        )
    | inr full ↦
        let e' = moves c b full in
        (
          ap unread e'
              ∙ append-nil (held (put_behind c.in_buffer b))
              ∙ held-put_behind c.in_buffer b,
          ap (λ (x : Connection). x.io_buffer) e',
        )
  ]

  handed_lem :
      (c : Connection) (s : Socket) (bs : List ℕ)
      → c.io_buffer ≡ none
      → unread (handed c s bs) ≡ unread c ++ bs
  handed_lem c s bs e =
      ap (◌++◌ (held c.in_buffer)) (
        bytes.contents-extend_from_slice bytes.new bs
        ∙ ap (λ (x : List ℕ). x ++ bs) bytes.contents-new)
      ∙ sym (
          ap (λ (x : Option BytesMut). (held c.in_buffer ++ held x) ++ bs) e
          ∙ ap (λ (x : List ℕ). x ++ bs) (append-nil (held c.in_buffer)))

  -- What the handler leaves unread stays unread, in the in buffer alone; and the bytes that are read
  -- next and handed to it stand behind.
  pub settle_lem :
      (c : Connection) (s : Socket) (bs : List ℕ)
      → (unread (settle c) ≡ unread c)
        × ((settle c).io_buffer ≡ none)
        × (unread (handed (settle c) s bs) ≡ unread c ++ bs)
  unfolding settle
  settle_lem c s bs =
      let (same, moved) = settle_buffer_lem c c.io_buffer refl in
      (same, moved, handed_lem (settle c) s bs moved ∙ ap (λ (x : List ℕ). x ++ bs) same)

-- ===== src/Connection/Input/Taking.antt =====
-- What the reading methods of src/connection.rs take out of the received bytes.
use rnet.Prelude.{
  ℕ, ◌+◌, ◌≤◌, ◌<◌, ◌≡◌, refl, ap, ap₂, sym, ◌∙◌, List, [], ◌∷◌, ◌++◌, Option, none, some, length,
  take, drop, arith, if◌then◌else◌, length-append,
}
use rnet.Prelude.Text.{is_empty}
use rnet.Extern.Bytes.{BytesApi}
use rnet.Extern.Streams.{StreamApi}
use rnet.Codec.{CodecApi}
use rnet.Connection.{Connection, held, unread, in_buf_len, io_buf_len}
use rnet.Connection.Input.{wanted, unless_empty}

module _ ⦃bytes : BytesApi⦄ ⦃streams : StreamApi⦄ ⦃codecs : CodecApi⦄ where
  open bytes use {BytesMut, contents, split_to, advance, extend_from_slice}

  -- `k` bytes were taken from the front of what is unread, and nothing else changed.
  pub record Took (c : Connection) (k : ℕ) (front : List ℕ) (c' : Connection) : Type 0 where
    pub taken : front ≡ take k (unread c)
    pub left : unread c' ≡ drop k (unread c)
    pub frame : record c' { in_buffer = c.in_buffer; io_buffer = c.io_buffer } ≡ c

  -- What is unread, by which buffers there are.
  pub unread_io :
      (c : Connection) {io : BytesMut}
      → held c.in_buffer ≡ []
      → c.io_buffer ≡ some io
      → unread c ≡ contents io
  unread_io c no_in at_io = ap₂ ◌++◌ no_in (ap held at_io)

  pub unread_in :
      (c : Connection) {b : BytesMut}
      → c.in_buffer ≡ some b
      → unread c ≡ contents b ++ held c.io_buffer
  unread_in c at_in = ap (λ (o : Option BytesMut). held o ++ held c.io_buffer) at_in

  pub unread_both :
      (c : Connection) {b io : BytesMut}
      → c.in_buffer ≡ some b
      → c.io_buffer ≡ some io
      → unread c ≡ contents b ++ contents io
  unread_both c at_in at_io = ap₂ ◌++◌ (ap held at_in) (ap held at_io)

  pub lengths : (c : Connection) → in_buf_len c + io_buf_len c ≡ length (unread c)
  unfolding in_buf_len io_buf_len
  lengths c = sym (length-append (held c.in_buffer) (held c.io_buffer))

  pub wanted-le : (n : Option ℕ) (total k : ℕ) → wanted n total ≡ some k → k ≤ total
  wanted-le none total k e = ground arith
  wanted-le (some n) total k e = ground arith

  -- A request for `n` bytes, or for all, out of so many: how many it is for, if there are as many.
  abbrev pub Granted : Option ℕ → ℕ → ℕ → Type 0
  Granted none total k = k ≡ total
  Granted (some n) total k = (n ≤ total) × (k ≡ n)

  -- It is for more than there are.
  abbrev pub Excessive : Option ℕ → ℕ → Type 0
  Excessive none total = ⊥
  Excessive (some n) total = total < n

  pub wanted-Granted : (n : Option ℕ) (total k : ℕ) → wanted n total ≡ some k → Granted n total k
  wanted-Granted none total k e = ground arith
  wanted-Granted (some n) total k e = ground arith

  pub wanted-Excessive : (n : Option ℕ) (total : ℕ) → wanted n total ≡ none → Excessive n total
  wanted-Excessive none total e = ground arith
  wanted-Excessive (some n) total e = ground arith

  pub length_zero : (s : List ℕ) → length s ≡ 0 → s ≡ []
  length_zero [] e = refl
  length_zero (x ∷ s) e = absurd (omega arith)

  -- Dropping an empty buffer loses nothing.
  pub held-unless_empty : (b : BytesMut) → held (unless_empty b) ≡ contents b
  held-unless_empty b = go (contents b) refl
    where
      go : (s : List ℕ) → contents b ≡ s → held (if is_empty s then none else some b) ≡ contents b
      go [] e = sym e
      go (x ∷ s) e = refl

  -- A step on the in buffer, then one on the io buffer.
  pub frame_trans :
      {c c' : Connection} (c'' : Connection)
      → record c' { in_buffer = c.in_buffer } ≡ c
      → record c'' { io_buffer = c'.io_buffer } ≡ c'
      → record c'' { in_buffer = c.in_buffer; io_buffer = c.io_buffer } ≡ c
  frame_trans {c} c'' first second =
      ap (λ (x : Connection). record x { in_buffer = c.in_buffer; io_buffer = c.io_buffer }) second
      ∙ ap (λ (x : Connection). record x { io_buffer = c.io_buffer }) first

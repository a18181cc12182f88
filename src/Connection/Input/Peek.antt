-- ===== src/Connection/Input/Peek.antt =====
-- `peek` of src/connection.rs looks at the front of what is unread.
use rnet.Prelude.{
  ℕ, ◌+◌, ◌-◌, ◌≤◌, ◌<◌, ◌≡◌, ◌≢◌, ==_iff, ◌⊎◌, inl, inr, refl, ap, ap₂, sym, ◌∙◌, true, false,
  List, [], ◌++◌, Option, none, some, leb, ◌==◌, length, take, arith, Bool-cases, Option-cases,
  length-append, take-append_le, take-append_ge, le→leb, leb→le,
}
use rnet.Io.{Run, ret}
use rnet.Extern.Bytes.{BytesApi}
use rnet.Extern.Streams.{StreamApi}
use rnet.Codec.{CodecApi}
use rnet.Connection.{Connection, held, unread, in_buf_len}
use rnet.Connection.Input.{
  wanted, PeekData, raw, bytes_mut, deref, peek_io, peek_both, peek_in, peek_len, peek,
}
use rnet.Connection.Input.Taking.{
  unread_io, unread_in, unread_both, lengths, wanted-le, Granted, Excessive, wanted-Granted,
  wanted-Excessive, length_zero,
}

module _ ⦃bytes : BytesApi⦄ ⦃streams : StreamApi⦄ ⦃codecs : CodecApi⦄ where
  open bytes use {BytesMut, contents, split_to, advance, extend_from_slice}

  Shows : Connection → ℕ → Run (Option PeekData) → Type 0
  Shows c k r = (d : PeekData) × (r ≡ ret (some d)) × (deref d ≡ take k (unread c))

  peek_io-Shows :
      (c : Connection) (k : ℕ) (io : BytesMut)
      → c.io_buffer ≡ some io
      → held c.in_buffer ≡ []
      → k ≤ length (contents io)
      → Shows c k (peek_io k (some io))
  unfolding Shows peek_io
  peek_io-Shows c k io at_io no_in fits =
      let within : leb k (length (contents io)) ≡ true = le→leb k (length (contents io)) fits in
      (raw (take k (contents io)), rw within, sym (ap (take k) (unread_io c no_in at_io)))

  peek_both-Shows :
      (c : Connection) (k : ℕ) (b io : BytesMut)
      → c.in_buffer ≡ some b
      → c.io_buffer ≡ some io
      → length (contents b) ≤ k
      → k ≤ length (contents b) + length (contents io)
      → Shows c k (peek_both c k b)
  unfolding Shows peek_both
  peek_both-Shows c k b io at_in at_io past fits =
      let copy = k - length (contents b) in
      let within : leb copy (length (contents io)) ≡ true =
        le→leb copy (length (contents io)) (omega arith) in
      let first = extend_from_slice bytes.new (contents b) in
      let second = extend_from_slice first (take copy (contents io)) in
      (
        bytes_mut second,
        rw (at_io, peek_both, within),
        bytes.contents-extend_from_slice first (take copy (contents io))
            ∙ ap (λ (s : List ℕ). s ++ take copy (contents io))
                (bytes.contents-extend_from_slice bytes.new (contents b)
                  ∙ ap (λ (s : List ℕ). s ++ contents b) bytes.contents-new)
            ∙ sym (
                ap (take k) (unread_both c at_in at_io)
                ∙ take-append_ge k (contents b) (contents io) past),
      )

  peek_in-Shows :
      (c : Connection) (k : ℕ) (b : BytesMut)
      → c.in_buffer ≡ some b
      → k ≤ length (contents b) + length (held c.io_buffer)
      → Shows c k (peek_in c k (some b))
  unfolding Shows peek_in
  peek_in-Shows c k b at_in fits = elim (Bool-cases (leb k (length (contents b)))) [
    | inl within ↦
        let short = leb→le k (length (contents b)) within in
        (
          raw (take k (contents b)),
          rw within,
          sym (
              ap (take k) (unread_in c at_in)
              ∙ take-append_le k (contents b) (held c.io_buffer) short),
        )
    | inr beyond ↦
        let long : length (contents b) < k = ground arith in
        elim (Option-cases c.io_buffer) [
          | inl no_io ↦
              let e = ap (λ (o : Option BytesMut). length (held o)) no_io in absurd (omega arith)
          | inr (io, at_io) ↦
              let e = ap (λ (o : Option BytesMut). length (held o)) at_io in
              rw beyond (peek_both-Shows c k b io at_in at_io (omega arith) (omega arith))
        ]
  ]

  abbrev Cases : Connection → ℕ → Run (Option PeekData) → Type 0
  Cases c k r = ((unread c ≡ []) × (r ≡ ret none)) ⊎ Shows c k r

  peek_io-Cases :
      (c : Connection) (k : ℕ) (io : Option BytesMut)
      → c.io_buffer ≡ io
      → held c.in_buffer ≡ []
      → k ≤ length (unread c)
      → Cases c k (peek_io k io)
  unfolding peek_io
  peek_io-Cases c k none at_io no_in fits = inl (ap₂ ◌++◌ no_in (ap held at_io), refl)
  peek_io-Cases c k (some io) at_io no_in fits =
      let e = ap length (unread_io c no_in at_io) in
      inr (peek_io-Shows c k io at_io no_in (omega arith))

  peek_in-Cases :
      (c : Connection) (k : ℕ) (b : Option BytesMut)
      → c.in_buffer ≡ b
      → held c.in_buffer ≢ []
      → k ≤ length (unread c)
      → Cases c k (peek_in c k b)
  peek_in-Cases c k none at_in some_in fits = absurd (some_in (ap held at_in))
  peek_in-Cases c k (some b) at_in some_in fits =
      let e = ap length (unread_in c at_in) in
      let sum = length-append (contents b) (held c.io_buffer) in
      inr (peek_in-Shows c k b at_in (omega arith))

  peek_len-Cases :
      (c : Connection) (k : ℕ) → k ≤ length (unread c) → Cases c k (peek_len c (some k))
  unfolding peek_len in_buf_len
  peek_len-Cases c k fits = elim (Bool-cases (in_buf_len c == 0)) [
    | inl no_in ↦
        rw no_in (peek_io-Cases c k c.io_buffer refl (length_zero _ ((==_iff _ 0).0 no_in)) fits)
    | inr some_in ↦
        rw some_in (peek_in-Cases c k c.in_buffer refl (λ e. ne_zero (ap length e) some_in) fits)
  ]
    where
      ne_zero : {m : ℕ} → m ≡ 0 → (m == 0) ≡ false → ⊥
      ne_zero e h = ground arith

  peek-eq : (c : Connection) (n : Option ℕ) → peek c n ≡ peek_len c (wanted n (length (unread c)))
  unfolding peek
  peek-eq c n = ap (λ (t : ℕ). peek_len c (wanted n t)) (lengths c)

  -- `peek` shows as many bytes as are asked for, from the front of what is unread, and never
  -- panics. It shows nothing only if more is asked for than there is, or nothing is there.
  pub peek_lem :
      (c : Connection) (n : Option ℕ)
      → ((Excessive n (length (unread c)) ⊎ (unread c ≡ [])) × (peek c n ≡ ret none))
        ⊎ ((k : ℕ) × Granted n (length (unread c)) k
            × (d : PeekData) × (peek c n ≡ ret (some d))
            × (deref d ≡ take k (unread c)))
  unfolding Shows
  peek_lem c n = rw (peek-eq c n) (elim (Option-cases (wanted n (length (unread c)))) [
    | inl too_many ↦ inl (inl (wanted-Excessive n _ too_many), rw too_many (refuse c))
    | inr (k, asked) ↦ elim (peek_len-Cases c k (wanted-le n _ k asked)) [
      | inl (nothing, e) ↦ inl (inr nothing, rw asked e)
      | inr (d, e, shown) ↦ inr (k, wanted-Granted n _ k asked, d, rw asked e, shown)
    ]
  ])
    where
      refuse : (c : Connection) → peek_len c none ≡ ret none
      refuse c = unfold peek_len in refl

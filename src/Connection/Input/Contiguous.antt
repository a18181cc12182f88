-- ===== src/Connection/Input/Contiguous.antt =====
-- `next_contiguous` of src/connection.rs takes from the front of what is unread.
use rnet.Prelude.{
  ℕ, ◌+◌, ◌-◌, ◌≤◌, ◌<◌, ◌≡◌, ◌≢◌, ==_iff, ◌⊎◌, inl, inr, refl, ap, ap₂, sym, ◌∙◌, true, false,
  List, [], ◌++◌, Option, none, some, leb, ◌==◌, length, take, drop, arith, Bool-cases,
  Option-cases, length-append, take-append_le, drop-append_le, take-append_ge, drop-append_ge,
  le→leb, leb→le,
}
use rnet.Io.{Run, ret}
use rnet.Extern.Bytes.{BytesApi}
use rnet.Extern.Streams.{StreamApi}
use rnet.Codec.{CodecApi}
use rnet.Connection.{Connection, held, unread, in_buf_len}
use rnet.Connection.Input.{
  wanted, contiguous_io, contiguous_in, contiguous_both, contiguous_len, next_contiguous,
}
use rnet.Connection.Input.Taking.{
  Took, unread_io, unread_in, unread_both, lengths, wanted-le, Granted, Excessive, wanted-Granted,
  wanted-Excessive, length_zero,
}

module _ ⦃bytes : BytesApi⦄ ⦃streams : StreamApi⦄ ⦃codecs : CodecApi⦄ where
  open bytes use {BytesMut, contents, split_to, advance, extend_from_slice}

  -- `f` hands out what it takes: it takes `k` bytes, with no panic.
  abbrev Hands : Connection → ℕ → Run (Option BytesMut × Connection) → Type 0
  Hands c k r =
      (front : BytesMut) × (c' : Connection) × (r ≡ ret (some front, c'))
      × Took c k (contents front) c'

  contiguous_io-Hands :
      (c : Connection) (k : ℕ) (io : BytesMut)
      → c.io_buffer ≡ some io
      → held c.in_buffer ≡ []
      → k ≤ length (contents io)
      → Hands c k (contiguous_io c k (some io))
  unfolding contiguous_io
  contiguous_io-Hands c k io at_io no_in fits =
      let within : leb k (length (contents io)) ≡ true = le→leb k (length (contents io)) fits in
      let whole = unread_io c no_in at_io in
      (
        (split_to io k).0,
        record c { io_buffer = some (split_to io k).1 },
        rw within,
        record {
          taken = bytes.contents-split_to_front io k fits ∙ sym (ap (take k) whole);
          left = ap₂ ◌++◌ no_in (bytes.contents-split_to_back io k fits) ∙ sym (ap (drop k) whole);
          frame = refl;
        },
      )

  contiguous_both-Hands :
      (c : Connection) (k : ℕ) (b io : BytesMut)
      → c.in_buffer ≡ some b
      → c.io_buffer ≡ some io
      → length (contents b) ≤ k
      → k ≤ length (contents b) + length (contents io)
      → Hands c k (contiguous_both c k b)
  unfolding contiguous_both
  contiguous_both-Hands c k b io at_in at_io past fits =
      let copy = k - length (contents b) in
      let enough : copy ≤ length (contents io) = omega arith in
      let within : leb copy (length (contents io)) ≡ true =
        le→leb copy (length (contents io)) enough in
      let whole = unread_both c at_in at_io in
      let joined = extend_from_slice b (take copy (contents io)) in
      (
        joined,
        record c { in_buffer = none; io_buffer = some (advance io copy) },
        rw (at_io, contiguous_both, within),
        record {
          taken =
              bytes.contents-extend_from_slice b (take copy (contents io))
              ∙ sym (ap (take k) whole ∙ take-append_ge k (contents b) (contents io) past);
          left =
              bytes.contents-advance io copy enough
              ∙ sym (ap (drop k) whole ∙ drop-append_ge k (contents b) (contents io) past);
          frame = refl;
        },
      )

  contiguous_in-Hands :
      (c : Connection) (k : ℕ) (b : BytesMut)
      → c.in_buffer ≡ some b
      → k ≤ length (contents b) + length (held c.io_buffer)
      → Hands c k (contiguous_in c k (some b))
  unfolding contiguous_in
  contiguous_in-Hands c k b at_in fits = elim (Bool-cases (leb k (length (contents b)))) [
    | inl within ↦
        let short = leb→le k (length (contents b)) within in
        let whole = unread_in c at_in in
        (
          (split_to b k).0,
          record c { in_buffer = some (split_to b k).1 },
          rw (within),
          record {
            taken =
                bytes.contents-split_to_front b k short
                ∙ sym (ap (take k) whole ∙ take-append_le k (contents b) (held c.io_buffer) short);
            left =
                ap (λ (s : List ℕ). s ++ held c.io_buffer) (bytes.contents-split_to_back b k short)
                ∙ sym (ap (drop k) whole ∙ drop-append_le k (contents b) (held c.io_buffer) short);
            frame = refl;
          },
        )
    | inr beyond ↦
        let long : length (contents b) < k = ground arith in
        elim (Option-cases c.io_buffer) [
          | inl no_io ↦
              let nothing = ap held no_io in let e = ap length nothing in absurd (omega arith)
          | inr (io, at_io) ↦
              let e = ap (λ (o : Option BytesMut). length (held o)) at_io in
              rw beyond (contiguous_both-Hands c k b io at_in at_io (omega arith) (omega arith))
        ]
  ]

  -- Nothing is unread and nothing is handed out, or `k` bytes are.
  abbrev Cases : Connection → ℕ → Run (Option BytesMut × Connection) → Type 0
  Cases c k r = ((unread c ≡ []) × (r ≡ ret (none, c))) ⊎ Hands c k r

  contiguous_io-Cases :
      (c : Connection) (k : ℕ) (io : Option BytesMut)
      → c.io_buffer ≡ io
      → held c.in_buffer ≡ []
      → k ≤ length (unread c)
      → Cases c k (contiguous_io c k io)
  unfolding contiguous_io
  contiguous_io-Cases c k none at_io no_in fits = inl (ap₂ ◌++◌ no_in (ap held at_io), refl)
  contiguous_io-Cases c k (some io) at_io no_in fits =
      let e = ap length (unread_io c no_in at_io) in
      inr (contiguous_io-Hands c k io at_io no_in (omega arith))

  contiguous_in-Cases :
      (c : Connection) (k : ℕ) (b : Option BytesMut)
      → c.in_buffer ≡ b
      → held c.in_buffer ≢ []
      → k ≤ length (unread c)
      → Cases c k (contiguous_in c k b)
  contiguous_in-Cases c k none at_in some_in fits = absurd (some_in (ap held at_in))
  contiguous_in-Cases c k (some b) at_in some_in fits =
      let e = ap length (unread_in c at_in) in
      let sum = length-append (contents b) (held c.io_buffer) in
      inr (contiguous_in-Hands c k b at_in (omega arith))

  contiguous_len-Cases :
      (c : Connection) (k : ℕ) → k ≤ length (unread c) → Cases c k (contiguous_len c (some k))
  unfolding contiguous_len in_buf_len
  contiguous_len-Cases c k fits = elim (Bool-cases (in_buf_len c == 0)) [
    | inl no_in ↦
        rw no_in
          (contiguous_io-Cases c k c.io_buffer refl (length_zero _ ((==_iff _ 0).0 no_in)) fits)
    | inr some_in ↦
        rw some_in
          (contiguous_in-Cases c k c.in_buffer refl (λ e. ne_zero (ap length e) some_in) fits)
  ]
    where
      ne_zero : {m : ℕ} → m ≡ 0 → (m == 0) ≡ false → ⊥
      ne_zero e h = ground arith

  next_contiguous-eq :
      (c : Connection) (n : Option ℕ)
      → next_contiguous c n ≡ contiguous_len c (wanted n (length (unread c)))
  unfolding next_contiguous
  next_contiguous-eq c n = ap (λ (t : ℕ). contiguous_len c (wanted n t)) (lengths c)

  -- `next_contiguous` hands out as many bytes as are asked for, from the front of what is unread,
  -- in one buffer, and leaves the others; it never panics. It gives nothing, and changes nothing,
  -- only if more is asked for than there is, or nothing is there.
  pub next_contiguous_lem :
      (c : Connection) (n : Option ℕ)
      → ((Excessive n (length (unread c)) ⊎ (unread c ≡ []))
          × (next_contiguous c n ≡ ret (none, c)))
        ⊎ ((k : ℕ) × Granted n (length (unread c)) k
            × (front : BytesMut) × (c' : Connection) × (next_contiguous c n ≡ ret (some front, c'))
            × Took c k (contents front) c')
  next_contiguous_lem c n =
      rw (next_contiguous-eq c n) (elim (Option-cases (wanted n (length (unread c)))) [
        | inl too_many ↦ inl (inl (wanted-Excessive n _ too_many), rw too_many (refuse c))
        | inr (k, asked) ↦ elim (contiguous_len-Cases c k (wanted-le n _ k asked)) [
          | inl (nothing, e) ↦ inl (inr nothing, rw asked e)
          | inr (front, c', e, took) ↦
              inr (k, wanted-Granted n _ k asked, front, c', rw asked e, took)
        ]
      ])
    where
      refuse : (c : Connection) → contiguous_len c none ≡ ret (none, c)
      refuse c = unfold contiguous_len in refl

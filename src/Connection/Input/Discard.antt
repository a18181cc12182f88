-- ===== src/Connection/Input/Discard.antt =====
-- `discard` of src/connection.rs drops the front of what is unread.
use rnet.Prelude.{
  ℕ, ◌+◌, ◌-◌, ◌≤◌, ◌<◌, ◌≡◌, ◌≢◌, ==_iff, ◌⊎◌, inl, inr, refl, ap, ap₂, sym, ◌∙◌, true, false,
  List, [], ◌++◌, Option, none, some, leb, ◌==◌, length, take, drop, arith, Bool-cases,
  Option-cases, length-append, drop-append_le, drop-append_ge, le→leb, leb→le,
}
use rnet.Io.{Run, ret, unwrap, ◌>>=◌}
use rnet.Extern.Bytes.{BytesApi}
use rnet.Extern.Streams.{StreamApi}
use rnet.Codec.{CodecApi}
use rnet.Connection.{Connection, held, unread, in_buf_len}
use rnet.Connection.Input.{
  wanted, unless_empty, discard_io, discard_both, discard_in, discard_len, discard,
}
use rnet.Connection.Input.Taking.{
  Took, unread_io, unread_in, unread_both, lengths, wanted-le, Granted, Excessive, wanted-Granted,
  wanted-Excessive, length_zero, held-unless_empty,
}

module _ ⦃bytes : BytesApi⦄ ⦃streams : StreamApi⦄ ⦃codecs : CodecApi⦄ where
  open bytes use {BytesMut, contents, split_to, advance, extend_from_slice}

  Drops : Connection → ℕ → Run (Option ℕ × Connection) → Type 0
  Drops c k r = (c' : Connection) × (r ≡ ret (some k, c')) × Took c k (take k (unread c)) c'

  discard_io-Drops :
      (c : Connection) (k : ℕ) (io : BytesMut)
      → c.io_buffer ≡ some io
      → held c.in_buffer ≡ []
      → k ≤ length (contents io)
      → Drops c k (discard_io c k (some io))
  unfolding Drops discard_io
  discard_io-Drops c k io at_io no_in fits =
      let within : leb k (length (contents io)) ≡ true = le→leb k (length (contents io)) fits in
      (
        record c { io_buffer = some (advance io k) },
        rw within,
        record {
          taken = refl;
          left =
              ap₂ ◌++◌ no_in (bytes.contents-advance io k fits)
              ∙ sym (ap (drop k) (unread_io c no_in at_io));
          frame = refl;
        },
      )

  discard_both-Drops :
      (c : Connection) (k : ℕ) (b io : BytesMut)
      → c.in_buffer ≡ some b
      → c.io_buffer ≡ some io
      → length (contents b) ≤ k
      → k ≤ length (contents b) + length (contents io)
      → Drops c k (discard_both c k b)
  unfolding Drops discard_both
  discard_both-Drops c k b io at_in at_io past fits =
      let rest = k - length (contents b) in
      let enough : rest ≤ length (contents io) = omega arith in
      let within : leb rest (length (contents io)) ≡ true =
        le→leb rest (length (contents io)) enough in
      (
        record c { in_buffer = none; io_buffer = some (advance io rest) },
        rw (at_io, discard_both, within),
        record {
          taken = refl;
          left =
              bytes.contents-advance io rest enough
              ∙ sym (
                  ap (drop k) (unread_both c at_in at_io)
                  ∙ drop-append_ge k (contents b) (contents io) past);
          frame = refl;
        },
      )

  discard_in-Drops :
      (c : Connection) (k : ℕ) (b : BytesMut)
      → c.in_buffer ≡ some b
      → k ≤ length (contents b) + length (held c.io_buffer)
      → Drops c k (discard_in c k b)
  unfolding Drops discard_in
  discard_in-Drops c k b at_in fits = elim (Bool-cases (leb k (length (contents b)))) [
    | inl within ↦
        let short = leb→le k (length (contents b)) within in
        (
          record c { in_buffer = unless_empty (advance b k) },
          rw within,
          record {
            taken = refl;
            left =
                ap (λ (s : List ℕ). s ++ held c.io_buffer)
                  (held-unless_empty (advance b k) ∙ bytes.contents-advance b k short)
                ∙ sym (
                    ap (drop k) (unread_in c at_in)
                    ∙ drop-append_le k (contents b) (held c.io_buffer) short);
            frame = refl;
          },
        )
    | inr beyond ↦
        let long : length (contents b) < k = ground arith in
        elim (Option-cases c.io_buffer) [
          | inl no_io ↦
              let e = ap (λ (o : Option BytesMut). length (held o)) no_io in absurd (omega arith)
          | inr (io, at_io) ↦
              let e = ap (λ (o : Option BytesMut). length (held o)) at_io in
              rw beyond (discard_both-Drops c k b io at_in at_io (omega arith) (omega arith))
        ]
  ]

  abbrev Cases : Connection → ℕ → Run (Option ℕ × Connection) → Type 0
  Cases c k r = ((unread c ≡ []) × (r ≡ ret (none, c))) ⊎ Drops c k r

  discard_io-Cases :
      (c : Connection) (k : ℕ) (io : Option BytesMut)
      → c.io_buffer ≡ io
      → held c.in_buffer ≡ []
      → k ≤ length (unread c)
      → Cases c k (discard_io c k io)
  unfolding discard_io
  discard_io-Cases c k none at_io no_in fits = inl (ap₂ ◌++◌ no_in (ap held at_io), refl)
  discard_io-Cases c k (some io) at_io no_in fits =
      let e = ap length (unread_io c no_in at_io) in
      inr (discard_io-Drops c k io at_io no_in (omega arith))

  discard_in-Cases :
      (c : Connection) (k : ℕ) (b : Option BytesMut)
      → c.in_buffer ≡ b
      → held c.in_buffer ≢ []
      → k ≤ length (unread c)
      → Cases c k (unwrap b >>= discard_in c k)
  discard_in-Cases c k none at_in some_in fits = absurd (some_in (ap held at_in))
  discard_in-Cases c k (some b) at_in some_in fits =
      let e = ap length (unread_in c at_in) in
      let sum = length-append (contents b) (held c.io_buffer) in
      inr (discard_in-Drops c k b at_in (omega arith))

  discard_len-Cases :
      (c : Connection) (k : ℕ) → k ≤ length (unread c) → Cases c k (discard_len c (some k))
  unfolding discard_len in_buf_len
  discard_len-Cases c k fits = elim (Bool-cases (in_buf_len c == 0)) [
    | inl no_in ↦
        rw no_in (discard_io-Cases c k c.io_buffer refl (length_zero _ ((==_iff _ 0).0 no_in)) fits)
    | inr some_in ↦
        rw some_in (discard_in-Cases c k c.in_buffer refl (λ e. ne_zero (ap length e) some_in) fits)
  ]
    where
      ne_zero : {m : ℕ} → m ≡ 0 → (m == 0) ≡ false → ⊥
      ne_zero e h = ground arith

  discard-eq :
      (c : Connection) (n : Option ℕ) → discard c n ≡ discard_len c (wanted n (length (unread c)))
  unfolding discard
  discard-eq c n = ap (λ (t : ℕ). discard_len c (wanted n t)) (lengths c)

  -- `discard` drops as many bytes as are asked for, from the front of what is unread, returns
  -- their number and never panics. It drops nothing, and changes nothing, only if more is asked
  -- for than there is, or nothing is there.
  pub discard_lem :
      (c : Connection) (n : Option ℕ)
      → ((Excessive n (length (unread c)) ⊎ (unread c ≡ [])) × (discard c n ≡ ret (none, c)))
        ⊎ ((k : ℕ) × Granted n (length (unread c)) k
            × (c' : Connection) × (discard c n ≡ ret (some k, c'))
            × Took c k (take k (unread c)) c')
  unfolding Drops
  discard_lem c n = rw (discard-eq c n) (elim (Option-cases (wanted n (length (unread c)))) [
    | inl too_many ↦ inl (inl (wanted-Excessive n _ too_many), rw too_many (refuse c))
    | inr (k, asked) ↦ elim (discard_len-Cases c k (wanted-le n _ k asked)) [
      | inl (nothing, e) ↦ inl (inr nothing, rw asked e)
      | inr (c', e, took) ↦ inr (k, wanted-Granted n _ k asked, c', rw asked e, took)
    ]
  ])
    where
      refuse : (c : Connection) → discard_len c none ≡ ret (none, c)
      refuse c = unfold discard_len in refl

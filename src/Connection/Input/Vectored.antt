-- ===== src/Connection/Input/Vectored.antt =====
-- `next_vectored` of src/connection.rs takes from the front of what is unread, piece by piece.
use rnet.Prelude.{
  ℕ, ◌-◌, ◌≤◌, ◌<◌, ◌≡◌, ◌⊎◌, inl, inr, refl, ap, ap₂, sym, ◌∙◌, true, List, [], ◌∷◌, ◌++◌, Option,
  none, some, ltb, leb, length, take, drop, min, arith, Bool-cases, Option-cases, append-nil,
  length-append, take-append, drop-append, take-min, drop-min, map-append, take_nothing,
  drop_nothing, take-nil, drop-nil, map, le→leb,
}
use rnet.Io.{Run, ret, concat, concat-append}
use rnet.Extern.Bytes.{BytesApi}
use rnet.Extern.Streams.{StreamApi}
use rnet.Codec.{CodecApi}
use rnet.Connection.{Connection, held, unread}
use rnet.Connection.Input.{
  unless_empty, wanted_some, vectored_in, vectored_io, vectored_len, next_vectored,
}
use rnet.Connection.Input.Taking.{Took, lengths, held-unless_empty, frame_trans}

module _ ⦃bytes : BytesApi⦄ ⦃streams : StreamApi⦄ ⦃codecs : CodecApi⦄ where
  open bytes use {BytesMut, contents, split_to, advance, extend_from_slice}

  -- The pieces, one after the other.
  abbrev pub joined : List BytesMut → List ℕ
  joined parts = concat (map contents parts)

  -- What the first step, at an in buffer with the bytes `s`, leaves to the second.
  FromIn : Connection → ℕ → List ℕ → Run (List BytesMut × ℕ × Connection) → Type 0
  FromIn c k s r =
      (parts : List BytesMut) × (c' : Connection) × (r ≡ ret (parts, k - length s, c'))
      × (joined parts ≡ take k s)
      × (held c'.in_buffer ≡ drop k s)
      × (record c' { in_buffer = c.in_buffer } ≡ c)

  vectored_in-FromIn :
      (c : Connection) (k : ℕ) (b : Option BytesMut)
      → c.in_buffer ≡ b
      → FromIn c k (held b) (vectored_in c k b)
  unfolding FromIn vectored_in
  vectored_in-FromIn c k none at_in =
      let e : k - 0 ≡ k = omega arith in
      ([], c, rw e, sym (take-nil k), ap held at_in ∙ sym (drop-nil k), refl)
  vectored_in-FromIn c k (some b) at_in =
      let len = min k (length (contents b)) in
      let fits : len ≤ length (contents b) = omega arith in
      elim (Bool-cases (ltb 0 len)) [
        | inl part ↦
            let (front, rest) = split_to b len in
            let within : leb len (length (contents b)) ≡ true =
              le→leb len (length (contents b)) fits in
            let e : k - len ≡ k - length (contents b) = omega arith in
            (
              front ∷ [],
              record c { in_buffer = unless_empty rest },
              rw (part, within, e),
              append-nil (contents front)
                  ∙ bytes.contents-split_to_front b len fits
                  ∙ take-min k (contents b),
              held-unless_empty rest
                  ∙ bytes.contents-split_to_back b len fits
                  ∙ drop-min k (contents b),
              refl,
            )
        | inr nothing ↦
            let none_taken : len ≡ 0 = ground arith in
            (
              [],
              record c { in_buffer = unless_empty b },
              rw nothing (
                  ap (λ (m : ℕ). ret ([], m, record c { in_buffer = unless_empty b }))
                    (omega arith)),
              sym (take_nothing k (contents b) none_taken),
              held-unless_empty b ∙ sym (drop_nothing k (contents b) none_taken),
              refl,
            )
      ]

  -- What the second step adds, at an io buffer with the bytes `s`.
  FromIo :
      Connection → ℕ → List BytesMut → List ℕ → Run (Option (List BytesMut) × Connection) → Type 0
  FromIo c m result s r =
      (parts : List BytesMut) × (c' : Connection) × (r ≡ ret (some parts, c'))
      × (joined parts ≡ joined result ++ take m s)
      × (held c'.io_buffer ≡ drop m s)
      × (record c' { io_buffer = c.io_buffer } ≡ c)

  vectored_io-FromIo :
      (c : Connection) (m : ℕ) (result : List BytesMut) (io : Option BytesMut)
      → c.io_buffer ≡ io
      → m ≤ length (held io)
      → FromIo c m result (held io) (vectored_io c m result io)
  unfolding FromIo vectored_io
  vectored_io-FromIo c m result none at_io fits = (
    result,
    c,
    refl,
    sym (append-nil (joined result)) ∙ ap (◌++◌ (joined result)) (sym (take-nil m)),
    ap held at_io ∙ sym (drop-nil m),
    refl,
  )
  vectored_io-FromIo c m result (some io) at_io fits = elim (Bool-cases (ltb 0 m)) [
    | inl more ↦
        let (front, rest) = split_to io m in
        let within : leb m (length (contents io)) ≡ true = le→leb m (length (contents io)) fits in
        (
          result ++ (front ∷ []),
          record c { io_buffer = some rest },
          rw (more, within),
          map-concat result (front ∷ [])
              ∙ ap (◌++◌ (joined result))
                  (append-nil (contents front) ∙ bytes.contents-split_to_front io m fits),
          bytes.contents-split_to_back io m fits,
          refl,
        )
    | inr done ↦
        let nothing : m ≡ 0 = ground arith in
        (
          result,
          c,
          rw done,
          sym (append-nil (joined result))
              ∙ ap (λ (j : ℕ). joined result ++ take j (contents io)) (sym nothing),
          ap held at_io ∙ ap (λ (j : ℕ). drop j (contents io)) (sym nothing),
          refl,
        )
  ]
    where
      map-concat : (xs ys : List BytesMut) → joined (xs ++ ys) ≡ joined xs ++ joined ys
      map-concat xs ys =
          ap concat (map-append contents xs ys) ∙ concat-append (map contents xs) (map contents ys)

  Hands : Connection → ℕ → Run (Option (List BytesMut) × Connection) → Type 0
  Hands c k r =
      (parts : List BytesMut) × (c' : Connection) × (r ≡ ret (some parts, c'))
      × Took c k (joined parts) c'

  vectored_len-Hands :
      (c : Connection) (k : ℕ) → k ≤ length (unread c) → Hands c k (vectored_len c (some k))
  unfolding Hands vectored_len FromIn FromIo
  vectored_len-Hands c k fits =
      let in_bytes = held c.in_buffer in
      let (result, c', first, got, kept, frame) = vectored_in-FromIn c k c.in_buffer refl in
      let same_io : c'.io_buffer ≡ c.io_buffer = ap (λ (x : Connection). x.io_buffer) frame in
      let io_size : length (held c'.io_buffer) ≡ length (held c.io_buffer) =
        ap (λ (o : Option BytesMut). length (held o)) same_io in
      let m = k - length in_bytes in
      let sum = length-append in_bytes (held c.io_buffer) in
      let (parts, c'', second, got', kept', frame') =
        vectored_io-FromIo c' m result c'.io_buffer refl (omega arith) in
      let same_in : c''.in_buffer ≡ c'.in_buffer = ap (λ (x : Connection). x.in_buffer) frame' in
      let io_bytes = ap held same_io in
      (
        parts,
        c'',
        rw (first, second),
        record {
          taken =
              got'
              ∙ ap₂ ◌++◌ got (ap (take m) io_bytes)
              ∙ sym (take-append k in_bytes (held c.io_buffer));
          left =
              ap₂ ◌++◌ (ap held same_in ∙ kept) (kept' ∙ ap (drop m) io_bytes)
              ∙ sym (drop-append k in_bytes (held c.io_buffer));
          frame = frame_trans c'' frame frame';
        },
      )

  next_vectored-eq :
      (c : Connection) (n : Option ℕ)
      → next_vectored c n ≡ vectored_len c (wanted_some n (length (unread c)))
  unfolding next_vectored
  next_vectored-eq c n = ap (λ (t : ℕ). vectored_len c (wanted_some n t)) (lengths c)

  wanted_some-le : (n : Option ℕ) (total k : ℕ) → wanted_some n total ≡ some k → k ≤ total
  wanted_some-le none total k e = ground arith
  wanted_some-le (some n) total k e = ground arith

  -- As for the other methods, but a request for 0 bytes is refused too.
  abbrev pub GrantedSome : Option ℕ → ℕ → ℕ → Type 0
  GrantedSome none total k = k ≡ total
  GrantedSome (some n) total k = (0 < n) × (n ≤ total) × (k ≡ n)

  abbrev pub Refused : Option ℕ → ℕ → Type 0
  Refused none total = ⊥
  Refused (some n) total = (total < n) ⊎ (n ≡ 0)

  wanted_some-GrantedSome :
      (n : Option ℕ) (total k : ℕ) → wanted_some n total ≡ some k → GrantedSome n total k
  wanted_some-GrantedSome none total k e = ground arith
  wanted_some-GrantedSome (some n) total k e = ground arith

  wanted_some-Refused : (n : Option ℕ) (total : ℕ) → wanted_some n total ≡ none → Refused n total
  wanted_some-Refused none total e = ground arith
  wanted_some-Refused (some n) total e = elim (Bool-cases (ltb total n)) [
    | inl more ↦ inl (ground arith)
    | inr fits ↦ inr (ground arith)
  ]

  -- `next_vectored` hands out as many bytes as are asked for, from the front of what is unread, in
  -- pieces whose bytes follow one another, and leaves the others; it never panics. It refuses,
  -- and changes nothing, exactly if more is asked for than there is, or if 0 bytes are asked for.
  pub next_vectored_lem :
      (c : Connection) (n : Option ℕ)
      → (Refused n (length (unread c)) × (next_vectored c n ≡ ret (none, c)))
        ⊎ ((k : ℕ) × GrantedSome n (length (unread c)) k
            × (parts : List BytesMut) × (c' : Connection) × (next_vectored c n
                ≡ ret (some parts, c'))
            × Took c k (joined parts) c')
  unfolding Hands
  next_vectored_lem c n =
      rw (next_vectored-eq c n) (elim (Option-cases (wanted_some n (length (unread c)))) [
        | inl refused ↦ inl (wanted_some-Refused n _ refused, rw refused (refuse c))
        | inr (k, asked) ↦
            let (parts, c', e, took) =
              vectored_len-Hands c k (wanted_some-le n (length (unread c)) k asked) in
            inr (k, wanted_some-GrantedSome n _ k asked, parts, c', rw asked e, took)
      ])
    where
      refuse : (c : Connection) → vectored_len c none ≡ ret (none, c)
      refuse c = unfold vectored_len in refl

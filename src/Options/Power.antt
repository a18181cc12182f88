-- ===== src/Options/Power.antt =====
-- `ceil_to_power_of_two` and `normalize_buffer_size` of src/options.rs as arithmetic.
use native.Mathlib.Nat.{pow-suc}
use native.Mathlib.Numerals.{add-one}
use rnet.Prelude.{
  ℕ, zero, suc, ◌+◌, ◌*◌, ◌^◌, ◌≤◌, ◌<◌, ◌≡◌, ◌⊎◌, inl, inr, refl, ap, Bool, true, some, arith, leb,
  Bool-cases, leb→le, le→leb,
}
use rnet.Io.{ret}
use rnet.Options.{power_from, next_power_of_two, ceil_to_power_of_two, normalize_buffer_size}

-- The search finds the first power that is large enough.
power_from_lem :
    (rounds e n : ℕ)
    → n ≤ 2 ^ (e + rounds)
    → (k : ℕ) × (power_from (suc rounds) e n ≡ some (2 ^ k))
      × (n ≤ 2 ^ k)
      × (e ≤ k)
      × ((k ≡ e) ⊎ (2 ^ k < 2 * n))
unfolding power_from
power_from_lem zero e n h =
    let last : 2 ^ (e + 0) ≡ 2 ^ e = ap (λ (t : ℕ). 2 ^ t) (omega arith) in
    let fits : leb n (2 ^ e) ≡ true = le→leb n (2 ^ e) (omega arith) in
    (e, rw fits, omega arith, omega arith, inl refl)
power_from_lem (suc rounds) e n h = elim (Bool-cases (leb n (2 ^ e))) [
  | inl fits ↦ (e, rw fits, leb→le n (2 ^ e) fits, omega arith, inl refl)
  | inr more ↦
      let shift : 2 ^ (e + suc rounds) ≡ 2 ^ (e + 1 + rounds) =
        ap (λ (t : ℕ). 2 ^ t) (omega arith) in
      let (k, found, above, later, least) = power_from_lem rounds (e + 1) n (omega arith) in
      let double : 2 ^ (e + 1) ≡ 2 * 2 ^ e = rw (add-one e) (omega (arith, pow-suc 2 e)) in
      let small : 2 ^ e < n = ground arith in
      (
        k,
        rw more found,
        above,
        omega arith,
        inr (elim least [ inl same ↦ rw same (omega arith) | inr below ↦ below ]),
      )
]

exponent_pos : (k : ℕ) → 1 < 2 ^ k → 1 ≤ k
exponent_pos zero h = absurd (omega arith)
exponent_pos (suc k) h = omega arith

-- The smallest power of two, from 2 on, that is not below `n`; no build overflows up to 2^63.
pub ceil_to_power_of_two_lem :
    (overflow_checks : Bool) (n : ℕ)
    → n ≤ 2 ^ 63
    → (k : ℕ) × (ceil_to_power_of_two overflow_checks n ≡ ret (2 ^ k))
      × (1 ≤ k)
      × (n ≤ 2 ^ k)
      × ((k ≡ 1) ⊎ (2 ^ k < 2 * n))
unfolding ceil_to_power_of_two next_power_of_two
ceil_to_power_of_two_lem overflow_checks n h = elim (Bool-cases (leb n 2)) [
  | inl small ↦ (1, rw small, omega arith, leb→le n 2 small, inl refl)
  | inr more ↦
      let (k, found, above, later, least) = power_from_lem 63 0 n h in
      let large : 2 < n = ground arith in
      let positive = exponent_pos k (omega arith) in
      (
        k,
        rw (more, next_power_of_two, found),
        positive,
        above,
        elim least [ inl same ↦ absurd (omega arith) | inr below ↦ inr below ],
      )
]

two_is_small : (k : ℕ) → k ≡ 1 → 1024 < 2 ^ k → ⊥
two_is_small k same h = let e : 2 ^ k ≡ 2 = rw same in omega arith

-- For a size of at most 2^63: a buffer gets 64 KiB if the size is 0, and otherwise the smallest power
-- of two from 1 KiB on that is not below the size. Nothing overflows.
pub normalize_buffer_size_lem :
    (overflow_checks : Bool) (size : ℕ)
    → size ≤ 2 ^ 63
    → ((size ≡ 0) × (normalize_buffer_size overflow_checks size ≡ ret (2 ^ 16)))
      ⊎ ((k : ℕ) × (normalize_buffer_size overflow_checks size ≡ ret (2 ^ k))
          × (1024 ≤ 2 ^ k)
          × (size ≤ 2 ^ k)
          × ((2 ^ k ≡ 1024) ⊎ (2 ^ k < 2 * size)))
unfolding normalize_buffer_size
normalize_buffer_size_lem overflow_checks size h = elim (Bool-cases (leb size 0)) [
  | inl zero_size ↦ inl (ground arith, rw zero_size)
  | inr asked ↦ elim (Bool-cases (leb size 1024)) [
    | inl small ↦ inr (10, rw (asked, small), omega arith, leb→le size 1024 small, inl refl)
    | inr large ↦
        let (k, found, later, above, least) = ceil_to_power_of_two_lem overflow_checks size h in
        let bound : 1024 < size = ground arith in
        inr (
          k,
          rw (asked, large, found),
          omega arith,
          above,
          elim least [
            | inl same ↦ absurd (two_is_small k same (omega arith))
            | inr below ↦ inr below
          ],
        )
  ]
]

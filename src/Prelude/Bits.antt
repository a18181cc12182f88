-- ===== src/Prelude/Bits.antt =====
-- `|` of a shifted field and a low field is their sum, and `&` with a mask of ones a remainder.
-- Both are read off the digit recursion that the native operations stand for, at any fuel that
-- covers the first number.
use Prim.Native.Nat.{
  ℕ, zero, suc, ◌+◌, ◌-◌, ◌*◌, ◌/◌, ◌%◌, ◌^◌, ◌≤◌, ◌<◌, min, max, digits, bit_and, bit_or,
  bit_and-bitwise, bit_or-bitwise,
}
use mathlib.Core.Path.{◌≡◌, refl, ap}
use native.Mathlib.Nat.{pow-suc, one-le-pow, le_refl}
use native.Mathlib.Omega.{arith}

abbrev or_digits : ℕ → ℕ → ℕ → ℕ
or_digits n a b = digits (λ x. x) max n a b

abbrev and_digits : ℕ → ℕ → ℕ → ℕ
and_digits n a b = digits (λ x. zero) min n a b

two_pow_field : (q k : ℕ) → q * 2 ^ suc k ≡ 2 * (q * 2 ^ k)
two_pow_field q k = omega (arith, ap (λ (t : ℕ). q * t) (pow-suc 2 k))

or_digits-zero : (n a : ℕ) → a ≤ n → or_digits n a 0 ≡ a
or_digits-zero zero zero h = refl
or_digits-zero zero (suc a) h = absurd (omega arith)
or_digits-zero (suc n) zero h = refl
or_digits-zero (suc n) (suc a) h = omega (arith, or_digits-zero n (suc a / 2) (omega arith))

or_digits_field :
    (k q : ℕ) (n a r : ℕ) → a ≡ q * 2 ^ k → a ≤ n → r < 2 ^ k → or_digits n a r ≡ a + r
or_digits_field zero q n a zero e h s = omega (arith, or_digits-zero n a h)
or_digits_field zero q n a (suc r) e h s = absurd (omega arith)
or_digits_field (suc k) q zero zero r e h s = omega arith
or_digits_field (suc k) q zero (suc a) r e h s = absurd (omega arith)
or_digits_field (suc k) q (suc n) zero r e h s = omega arith
or_digits_field (suc k) q (suc n) (suc a) r e h s =
    let half = two_pow_field q k in
    let bound = pow-suc 2 k in
    omega
      (arith, or_digits_field k q n (suc a / 2) (r / 2) (omega arith) (omega arith) (omega arith))

and_digits-zero : (n a : ℕ) → a ≤ n → and_digits n a 0 ≡ 0
and_digits-zero zero zero h = refl
and_digits-zero zero (suc a) h = absurd (omega arith)
and_digits-zero (suc n) zero h = refl
and_digits-zero (suc n) (suc a) h = omega (arith, and_digits-zero n (suc a / 2) (omega arith))

and_digits_field :
    (k q : ℕ) (n a r : ℕ) → a ≡ q * 2 ^ k + r → a ≤ n → r < 2 ^ k → and_digits n a (2 ^ k - 1) ≡ r
and_digits_field zero q n a zero e h s = and_digits-zero n a h
and_digits_field zero q n a (suc r) e h s = absurd (omega arith)
and_digits_field (suc k) q zero zero r e h s = omega arith
and_digits_field (suc k) q zero (suc a) r e h s = absurd (omega arith)
and_digits_field (suc k) q (suc n) zero r e h s = omega arith
and_digits_field (suc k) q (suc n) (suc a) r e h s =
    let half = two_pow_field q k in
    let bound = pow-suc 2 k in
    let some_digit = one-le-pow k 2 in
    let mask : (2 ^ suc k - 1) / 2 ≡ 2 ^ k - 1 = omega arith in
    omega (
      arith,
      ap (λ (m : ℕ). and_digits n (suc a / 2) m) mask,
      and_digits_field k q n (suc a / 2) (r / 2) (omega arith) (omega arith) (omega arith),
    )

-- A field above the low `k` bits, joined with one inside them.
pub bit_or_field : (k q r : ℕ) → r < 2 ^ k → bit_or (q * 2 ^ k) r ≡ q * 2 ^ k + r
bit_or_field k q r s = omega (
  arith,
  bit_or-bitwise (q * 2 ^ k) r,
  or_digits_field k q (q * 2 ^ k) (q * 2 ^ k) r refl (le_refl _) s,
)

-- The low `k` bits.
pub bit_and_mask : (k a : ℕ) → bit_and a (2 ^ k - 1) ≡ a % 2 ^ k
bit_and_mask k a =
    let positive = one-le-pow k 2 in
    omega (
      arith,
      bit_and-bitwise a (2 ^ k - 1),
      and_digits_field k (a / 2 ^ k) a a (a % 2 ^ k) (omega arith) (le_refl _) (omega arith),
    )

-- ===== src/Prelude/Text.antt =====
-- Text as the list of its characters, and the searches of `str` that the source makes.
use Prim.Native.Char.{code}
use Prim.Native.String.{String}
use rnet.Prelude.{
  ℕ, ◌≡◌, ◌≢◌, ◌↔◌, refl, Bool, true, false, ◌&&◌, List, [], ◌∷◌, ◌++◌, Option, none, some, arith,
  ◌==◌, if◌then◌else◌, Option-cases, inl, inr,
}

abbrev pub codes : String → List ℕ
codes String.[] = []
codes (String.◌∷◌ c s) = code c ∷ codes s

abbrev pub eq_text : List ℕ → List ℕ → Bool
eq_text [] [] = true
eq_text [] (d ∷ t) = false
eq_text (c ∷ s) [] = false
eq_text (c ∷ s) (d ∷ t) = (c == d) && eq_text s t

pub eq_text_iff : (s t : List ℕ) → (eq_text s t ≡ true) ↔ (s ≡ t)
eq_text_iff [] [] = ground arith
eq_text_iff [] (d ∷ t) = ground arith
eq_text_iff (c ∷ s) [] = ground arith
eq_text_iff (c ∷ s) (d ∷ t) = ground (arith, eq_text_iff s t)

abbrev pub is_empty : List ℕ → Bool
is_empty [] = true
is_empty (c ∷ s) = false

pub is_empty-ne : (s : List ℕ) → s ≢ [] → is_empty s ≡ false
is_empty-ne [] h = absurd (h refl)
is_empty-ne (c ∷ s) h = refl

pub append-ne-nil : (s : List ℕ) {t : List ℕ} → t ≢ [] → s ++ t ≢ []
append-ne-nil [] h = h
append-ne-nil (c ∷ s) h = λ e. cc

-- `s.strip_prefix(p)`.
abbrev pub strip_prefix : List ℕ → List ℕ → Option (List ℕ)
strip_prefix [] s = some s
strip_prefix (p ∷ ps) [] = none
strip_prefix (p ∷ ps) (c ∷ s) = if p == c then strip_prefix ps s else none

-- `s.split_once(p)`: what stands before and behind the first occurrence.
unfoldable pub split_once : List ℕ → List ℕ → Option (List ℕ × List ℕ)
split_once p [] = elim (strip_prefix p []) [ some r ↦ some ([], r) | none ↦ none ]
split_once p (c ∷ s) = elim (strip_prefix p (c ∷ s)) [
  | some r ↦ some ([], r)
  | none ↦ elim (split_once p s) [ none ↦ none | some (a, b) ↦ some (c ∷ a, b) ]
]

pub strip_prefix-append : (p s : List ℕ) → strip_prefix p (p ++ s) ≡ some s
strip_prefix-append [] s = refl
strip_prefix-append (c ∷ p) s = ground (arith, strip_prefix-append p s)

pub strip_prefix-eq : (p s r : List ℕ) → strip_prefix p s ≡ some r → s ≡ p ++ r
strip_prefix-eq [] s r h = ground arith
strip_prefix-eq (c ∷ p) [] r h = ground arith
strip_prefix-eq (c ∷ p) (d ∷ s) r h = ground (arith, strip_prefix-eq p s r)

-- The parts of a split give the text back.
pub split_once-eq : (p s : List ℕ) {a b : List ℕ} → split_once p s ≡ some (a, b) → s ≡ a ++ p ++ b
unfolding split_once
split_once-eq p [] {a} {b} h = ground (arith, strip_prefix-eq p [] b)
split_once-eq p (c ∷ s) {a} {b} h = elim (Option-cases (split_once p s)) [
  | inl e ↦ ground (arith, strip_prefix-eq p (c ∷ s) b)
  | inr ((u, v), e) ↦ ground (arith, strip_prefix-eq p (c ∷ s) b, split_once-eq p s e)
]

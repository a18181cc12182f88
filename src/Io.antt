-- ===== src/Io.antt =====
-- `std::io::Result`, panics, and byte strings, as the modules under src/ use them.
use rnet.Prelude.{
  Option, none, some, ap, sym, ◌∙◌, ℕ, Bool, true, false, List, [], ◌∷◌, ◌++◌, ◌≡◌, refl,
  append_assoc, arith,
}

-- `std::io::ErrorKind`: the kinds that the source tells apart or makes, and any other by its code.
pub data ErrorKind : Type 0 where
  would_block interrupted write_zero invalid_input addr_not_available other : ErrorKind
  os_error : ℕ → ErrorKind

pub data IoResult {ℓ} (A : Type ℓ) : Type ℓ where
  ok : A → IoResult A
  err : ErrorKind → IoResult A

-- A computation that may panic.
pub data Run {ℓ} (A : Type ℓ) : Type ℓ where
  ret : A → Run A
  panic : Run A

infixl 5 ◌>>=◌
abbrev pub ◌>>=◌ {ℓ κ} : {A : Type ℓ} {B : Type κ} → Run A → (A → Run B) → Run B
ret a >>= f = f a
panic >>= f = panic

-- The same, where another `>>=` is in use.
abbrev pub and_then {ℓ κ} : {A : Type ℓ} {B : Type κ} → Run A → (A → Run B) → Run B
and_then r f = r >>= f

-- `Option::unwrap`.
abbrev pub unwrap {ℓ} : {A : Type ℓ} → Option A → Run A
unwrap none = panic
unwrap (some a) = ret a

abbrev pub is_interrupted : ErrorKind → Bool
is_interrupted interrupted = true
is_interrupted _ = false

abbrev pub is_would_block : ErrorKind → Bool
is_would_block would_block = true
is_would_block _ = false

-- The slices of an iterator, one after the other.
abbrev pub concat : List (List ℕ) → List ℕ
concat [] = []
concat (s ∷ ss) = s ++ concat ss

pub concat-append : (ss ts : List (List ℕ)) → concat (ss ++ ts) ≡ concat ss ++ concat ts
concat-append [] ts = refl
concat-append (s ∷ ss) ts =
    ap (◌++◌ s) (concat-append ss ts) ∙ sym (append_assoc s (concat ss) (concat ts))

pub ok-ne-err {ℓ} : {A : Type ℓ} {a : A} {e : ErrorKind} (r : IoResult A) → r ≡ ok a → r ≡ err e → ⊥
ok-ne-err r fine wrong = ground arith

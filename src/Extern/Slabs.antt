-- ===== src/Extern/Slabs.antt =====
-- `Slab` of the crate `slab`: values under keys that the slab chooses.
use rnet.Prelude.{
  ℕ, suc, ◌≡◌, ◌≢◌, ◌⊎◌, List, [], ◌∷◌, Option, none, some, ◌==◌, if◌then◌else◌, arith,
}

-- Some item of the list.
abbrev pub Member : ℕ → List ℕ → Type 0
Member k [] = ⊥
Member k (j ∷ js) = (k ≡ j) ⊎ Member k js

pub record SlabApi (A : Type 0) : Type 1 where
  pub Slab : Type 0
  pub empty : Slab
  pub get : Slab → ℕ → Option A
  -- The key of `vacant_entry`, and that entry's `insert`.
  pub vacant_key : Slab → ℕ
  pub insert : Slab → A → Slab
  pub remove : Slab → ℕ → Slab
  -- A write through `get_mut`.
  pub put : Slab → ℕ → A → Slab
  pub len : Slab → ℕ
  -- The keys of `iter`.
  pub keys : Slab → List ℕ
  pub get-empty : (k : ℕ) → get empty k ≡ none
  pub get-vacant_key : (s : Slab) → get s (vacant_key s) ≡ none
  pub get-insert :
      (s : Slab) (a : A) (k : ℕ)
      → get (insert s a) k ≡ (if k == vacant_key s then some a else get s k)
  pub get-remove :
      (s : Slab) (j k : ℕ)
      → get s j ≢ none
      → get (remove s j) k ≡ (if k == j then none else get s k)
  pub get-put :
      (s : Slab) (j k : ℕ) (a : A)
      → get s j ≢ none
      → get (put s j a) k ≡ (if k == j then some a else get s k)
  pub len-empty : len empty ≡ 0
  pub len-insert : (s : Slab) (a : A) → len (insert s a) ≡ suc (len s)
  pub len-remove : (s : Slab) (j : ℕ) → get s j ≢ none → suc (len (remove s j)) ≡ len s
  pub len-put : (s : Slab) (j : ℕ) (a : A) → get s j ≢ none → len (put s j a) ≡ len s
  pub get-keys : (s : Slab) (k : ℕ) → get s k ≢ none → Member k (keys s)

module _ {A : Type 0} ⦃slabs : SlabApi A⦄ where
  open slabs use {Slab, get, put, remove}

  pub get-put_same :
      (cs : Slab) (key : ℕ) (c : A) → get cs key ≢ none → get (put cs key c) key ≢ none
  get-put_same cs key c full = let e = slabs.get-put cs key key c full in ground arith

  pub get-put_found :
      (cs : Slab) (key : ℕ) (c : A) → get cs key ≢ none → get (put cs key c) key ≡ some c
  get-put_found cs key c full = let e = slabs.get-put cs key key c full in ground arith

  pub get-put_other :
      (cs : Slab) (key : ℕ) (c : A)
      → get cs key ≢ none
      → (j : ℕ) → key ≢ j
      → get (put cs key c) j ≡ get cs j
  get-put_other cs key c full j other = let e = slabs.get-put cs key j c full in ground arith

  pub get-remove_same : (cs : Slab) (key : ℕ) → get cs key ≢ none → get (remove cs key) key ≡ none
  get-remove_same cs key full = let e = slabs.get-remove cs key key full in ground arith

  pub get-remove_other :
      (cs : Slab) (key : ℕ)
      → get cs key ≢ none
      → (j : ℕ) → key ≢ j
      → get (remove cs key) j ≡ get cs j
  get-remove_other cs key full j other = let e = slabs.get-remove cs key j full in ground arith

-- ===== src/Balancer/Fairness.antt =====
-- The turns of `RoundRobin` in src/balancer.rs.
use rnet.Prelude.{
  ℕ, zero, suc, ◌+◌, ◌-◌, ◌%◌, ◌^◌, ◌≤◌, ◌<◌, ◌≡◌, ◌⊎◌, inl, inr, refl, List, [], ◌∷◌, some, leb,
  ltb, length, get_elem?, arith, Bool-cases, ap, sym, ◌∙◌,
}
use native.Mathlib.Nat.{mod-add-mod, mod-eq_of_lt, mod-eq-sub-mod, mod-lt}
use rnet.Balancer.{rotating, select_next, select, select_times}

-- A step of less than one turn from `a`, by the place that `a` stands at.
turn :
    (a i len : ℕ)
    → i < len
    → ((a % len + i < len) × ((a + i) % len ≡ a % len + i))
      ⊎ ((len ≤ a % len + i) × ((a + i) % len + len ≡ a % len + i))
turn a i len h =
    let small = mod-lt a {m = len} (omega arith) in
    let same = mod-add-mod a len i in
    elim (Bool-cases (ltb (a % len + i) len)) [
      | inl before ↦
          let lt : a % len + i < len = ground arith in inl (lt, sym same ∙ mod-eq_of_lt lt)
      | inr after ↦
          let ge : len ≤ a % len + i = ground arith in
          let less : (a % len + i) - len < len = omega arith in
          let once = mod-eq-sub-mod ge ∙ mod-eq_of_lt less in inr (ge, omega arith)
    ]

turn-inj : (a i j len : ℕ) → i < len → j < len → (a + i) % len ≡ (a + j) % len → i ≡ j
turn-inj a i j len hi hj same = elim (turn a i len hi) [
  | inl (p, e) ↦ elim (turn a j len hj) [ inl (q, d) ↦ omega arith | inr (q, d) ↦ omega arith ]
  | inr (p, e) ↦ elim (turn a j len hj) [ inl (q, d) ↦ omega arith | inr (q, d) ↦ omega arith ]
]

turn-onto : (a idx len : ℕ) → idx < len → (i : ℕ) × (i < len) × ((a + i) % len ≡ idx)
turn-onto a idx len h =
    let small = mod-lt a {m = len} (omega arith) in
    elim (Bool-cases (leb (a % len) idx)) [
      | inl up ↦
          let le : a % len ≤ idx = ground arith in
          let i = idx - a % len in
          let lt : i < len = omega arith in
          (i, lt, elim (turn a i len lt) [ inl (q, d) ↦ omega arith | inr (q, d) ↦ omega arith ])
      | inr down ↦
          let gt : idx < a % len = ground arith in
          let i = idx + len - a % len in
          let lt : i < len = omega arith in
          (i, lt, elim (turn a i len lt) [ inl (q, d) ↦ omega arith | inr (q, d) ↦ omega arith ])
    ]

length-select_times :
    (times next : ℕ) (ws : List ℕ) → length (select_times times (rotating next) ws).0 ≡ times
unfolding select_times select select_next
length-select_times zero next ws = refl
length-select_times (suc times) next [] = ap (λ (n : ℕ). suc n) (length-select_times times next [])
length-select_times (suc times) next (w ∷ ws) =
    ap (λ (n : ℕ). suc n) (length-select_times times ((next + 1) % 2 ^ 64) (w ∷ ws))

get_elem?-select_times :
    (times next i w : ℕ) (ws : List ℕ)
    → next + times ≤ 2 ^ 64
    → i < times
    → get_elem? (select_times times (rotating next) (w ∷ ws)).0 i
      ≡ some ((next + i) % length (w ∷ ws))
unfolding select_times select select_next
get_elem?-select_times zero next i w ws fits h = absurd (omega arith)
get_elem?-select_times (suc times) next zero w ws fits h =
    let e : next ≡ next + 0 = omega arith in ap (λ (n : ℕ). some (n % length (w ∷ ws))) e
get_elem?-select_times (suc times) next (suc i) w ws fits h =
    let e : (next + 1) % 2 ^ 64 ≡ next + 1 = omega arith in
    let d : (next + 1 + i) ≡ next + suc i = omega arith in
    rw e (get_elem?-select_times times (next + 1) i w ws (omega arith) (omega arith))
    ∙ ap (λ (n : ℕ). some (n % length (w ∷ ws))) d

get_elem?-lt : (xs : List ℕ) (i : ℕ) {x : ℕ} → get_elem? xs i ≡ some x → i < length xs
get_elem?-lt [] i e = ground arith
get_elem?-lt (x ∷ xs) zero e = omega arith
get_elem?-lt (x ∷ xs) (suc i) e = let h = get_elem?-lt xs i e in omega arith

-- In as many selections as there are workers, `RoundRobin` selects each worker exactly once, unless its
-- counter wraps around on the way.
pub select_times_lem :
    (next w : ℕ) (ws : List ℕ)
    → let len = length (w ∷ ws) in
      next + len ≤ 2 ^ 64
      → let picks = (select_times len (rotating next) (w ∷ ws)).0 in
        (length picks ≡ len)
        × ((idx : ℕ)
            → idx < len
            → (i : ℕ) × (get_elem? picks i ≡ some idx)
              × ((j : ℕ) → get_elem? picks j ≡ some idx → j ≡ i))
select_times_lem next w ws fits =
    let len = length (w ∷ ws) in
    let size = length-select_times len next (w ∷ ws) in
    (
      size,
      λ idx h.
          let (i, lt, e) = turn-onto next idx len h in
          (
            i,
            get_elem?-select_times len next i w ws fits lt ∙ ap some e,
            λ j at_j.
                let within = get_elem?-lt (select_times len (rotating next) (w ∷ ws)).0 j at_j in
                let lt_j : j < len = omega arith in
                let same = sym (get_elem?-select_times len next j w ws fits lt_j) ∙ at_j in
                turn-inj next j i len lt_j lt (ground (arith, e, same)),
          ),
    )

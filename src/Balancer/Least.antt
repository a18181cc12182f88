-- ===== src/Balancer/Least.antt =====
-- The choice of `LeastConnections` in src/balancer.rs.
use rnet.Prelude.{
  ℕ, zero, suc, ◌+◌, ◌≤◌, ◌<◌, ◌≡◌, ◌⊎◌, inl, inr, refl, List, [], ◌∷◌, some, ltb, get_elem?, arith,
  Bool-cases, sym, ◌∙◌, subst,
}
use rnet.Balancer.{min_by_key, select_least}

-- At `j` stands the least of all counts, for the first time.
abbrev pub FirstLeast : List ℕ → ℕ → ℕ → Type 0
FirstLeast ws j m =
    (get_elem? ws j ≡ some m)
    × ((i n : ℕ) → get_elem? ws i ≡ some n → m ≤ n)
    × ((i n : ℕ) → i < j → get_elem? ws i ≡ some n → m < n)

-- A new worker in front, with a larger count.
later_least :
    (w : ℕ) (ws : List ℕ) (j m : ℕ) → m < w → FirstLeast ws j m → FirstLeast (w ∷ ws) (suc j) m
later_least w ws j m less (here, lowest, first) = (here, all, earlier)
  where
    all : (i n : ℕ) → get_elem? (w ∷ ws) i ≡ some n → m ≤ n
    all zero n e = ground arith
    all (suc i) n e = lowest i n e

    earlier : (i n : ℕ) → i < suc j → get_elem? (w ∷ ws) i ≡ some n → m < n
    earlier zero n lt e = ground arith
    earlier (suc i) n lt e = first i n (omega arith) e

-- A new worker in front that none is below.
now_least :
    (w : ℕ) (ws : List ℕ) → ((i n : ℕ) → get_elem? ws i ≡ some n → w ≤ n) → FirstLeast (w ∷ ws) 0 w
now_least w ws lowest = (refl, all, λ i n lt e. absurd (omega arith))
  where
    all : (i n : ℕ) → get_elem? (w ∷ ws) i ≡ some n → w ≤ n
    all zero n e = ground arith
    all (suc i) n e = lowest i n e

-- The best so far stays, or a first least one with a smaller count takes its place.
abbrev Scan : ℕ → ℕ → ℕ → List ℕ → Type 0
Scan best count idx ws =
    ((min_by_key best count idx ws ≡ best) × ((i n : ℕ) → get_elem? ws i ≡ some n → count ≤ n))
    ⊎ ((j m : ℕ) × (min_by_key best count idx ws ≡ idx + j) × (m < count) × FirstLeast ws j m)

min_by_key-Scan : (best count idx : ℕ) (ws : List ℕ) → Scan best count idx ws
unfolding min_by_key
min_by_key-Scan best count idx [] = inl (refl, λ i n e. ground arith)
min_by_key-Scan best count idx (w ∷ ws) = elim (Bool-cases (ltb w count)) [
  | inl better ↦
      let less : w < count = ground arith in
      elim (min_by_key-Scan idx w (idx + 1) ws) [
        | inl (stays, lowest) ↦
            inr (0, w, rw better (stays ∙ omega arith), less, now_least w ws lowest)
        | inr (j, m, at_j, lower, first) ↦ inr (
          suc j,
          m,
          rw better (at_j ∙ omega arith),
          omega arith,
          later_least w ws j m lower first,
        )
      ]
  | inr not_better ↦
      let above : count ≤ w = ground arith in
      elim (min_by_key-Scan best count (idx + 1) ws) [
        | inl (stays, lowest) ↦ inl (rw not_better stays, all w ws lowest above)
        | inr (j, m, at_j, lower, first) ↦ inr (
          suc j,
          m,
          rw not_better (at_j ∙ omega arith),
          lower,
          later_least w ws j m (omega arith) first,
        )
      ]
]
  where
    all :
        {count : ℕ} (w : ℕ) (ws : List ℕ)
        → ((i n : ℕ) → get_elem? ws i ≡ some n → count ≤ n)
        → count ≤ w
        → (i n : ℕ) → get_elem? (w ∷ ws) i ≡ some n
        → count ≤ n
    all w ws lowest above zero n e = ground arith
    all w ws lowest above (suc i) n e = lowest i n e

one_more : (j : ℕ) → 1 + j ≡ suc j
one_more j = omega arith

-- Of at least one worker, `LeastConnections` selects the first of those with the fewest connections.
pub select_least_lem :
    (w : ℕ) (ws : List ℕ) → (m : ℕ) × FirstLeast (w ∷ ws) (select_least (w ∷ ws)) m
unfolding select_least
select_least_lem w ws = elim (min_by_key-Scan 0 w 1 ws) [
  | inl (stays, lowest) ↦
      (w, subst (λ (j : ℕ). FirstLeast (w ∷ ws) j w) (sym stays) (now_least w ws lowest))
  | inr (j, m, at_j, lower, first) ↦ (
    m,
    subst (λ (t : ℕ). FirstLeast (w ∷ ws) t m) (sym (at_j ∙ one_more j))
        (later_least w ws j m lower first),
  )
]

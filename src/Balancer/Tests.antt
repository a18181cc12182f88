-- ===== src/Balancer/Tests.antt =====
-- Three workers in turn, and the first of the least loaded.
use rnet.Prelude.{ℕ, ◌<◌, ◌≡◌, refl, List, [], ◌∷◌, some, length, get_elem?, arith}
use rnet.Io.{panic}
use rnet.Options.{source_addr_hash}
use rnet.Balancer.{rotating, least, new, select, select_times}
use rnet.Balancer.Fairness.{select_times_lem}
use rnet.Balancer.Least.{FirstLeast, select_least_lem}
use rnet.Balancer.{select_least, min_by_key, select_next}

abbrev counts : List ℕ
counts = 4 ∷ 2 ∷ 3 ∷ 2 ∷ []

select_run : select least counts ≡ (1, least)
unfolding select select_least min_by_key
select_run = refl

turns_run : (select_times 5 (rotating 7) (0 ∷ 0 ∷ 0 ∷ [])).0 ≡ 1 ∷ 2 ∷ 0 ∷ 1 ∷ 2 ∷ []
unfolding select_times select select_next
turns_run = refl

new_run : new source_addr_hash ≡ panic
unfolding new
new_run = refl

select_least_lem_example : (m : ℕ) × FirstLeast counts (select_least counts) m
select_least_lem_example = select_least_lem 4 (2 ∷ 3 ∷ 2 ∷ [])

select_times_lem_example :
    let picks = (select_times 3 (rotating 7) (5 ∷ 0 ∷ 9 ∷ [])).0 in
    (length picks ≡ 3)
    × ((idx : ℕ)
        → idx < 3
        → (i : ℕ) × (get_elem? picks i ≡ some idx)
          × ((j : ℕ) → get_elem? picks j ≡ some idx → j ≡ i))
select_times_lem_example = select_times_lem 7 5 (0 ∷ 9 ∷ []) (omega arith)

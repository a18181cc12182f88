-- ===== src/Gfd/Tests.antt =====
-- Handles on concrete inputs.
use rnet.Prelude.{
  ℕ, ◌+◌, ◌-◌, ◌*◌, ◌%◌, ◌^◌, ◌<◌, ◌≡◌, refl, true, false, ◌⊎◌, List, [], ◌∷◌, some, none, arith,
  ◌&&◌, not, ◌==◌,
}
use rnet.Prelude.Int.{pos, negsuc, nonneg}
use rnet.Gfd.{Gfd, Request, new, new_all, pack, eq, validate, event_loop_index, slab_index}
use rnet.Gfd.Packing.{new_fields}
use rnet.Gfd.Sequence.{new_all-distinct, validate-new_all}

abbrev first : Gfd
first = record { seq = 0; index_info = 5 * 2 ^ 24 + 12345; fd = pos 100 }

abbrev second : Gfd
second = record { seq = 1; index_info = 5 * 2 ^ 24 + 12345; fd = pos 100 }

abbrev requests : List Request
requests = let r : Request = record { fd = pos 100; loop_id = 5; token = 12345 } in r ∷ r ∷ []

-- The unit test of the source.
packing_run : new true 0 (pos 100) 5 12345 ≡ some (first, 1)
unfolding new pack
packing_run = refl

packing_overflow : new true 0 (pos 100) 5 (2 ^ 24) ≡ none
unfolding new
packing_overflow = refl

counter_wraps :
    new false (2 ^ 32 - 1) (negsuc 0) 0 (2 ^ 24)
    ≡ some (record { seq = 2 ^ 32 - 1; index_info = 0; fd = negsuc 0 }, 0)
unfolding new pack
counter_wraps = refl

new_fields_example :
    (event_loop_index first ≡ 5)
    × (slab_index first ≡ 12345)
    × (pos 100 ≡ pos 100)
    × (◌≡◌ {A = ℕ} 0 0)
    × (◌≡◌ {A = ℕ} 1 1)
    × (5 * 2 ^ 24 + 12345 < 2 ^ 32)
    × ((true ≡ false) ⊎ (slab_index first ≡ 12345))
new_fields_example = new_fields true 0 (pos 100) 5 12345 (omega arith) packing_run

new_all-distinct_example : eq first second ≡ false
unfolding new_all pack
new_all-distinct_example =
    new_all-distinct requests 0 0 1 (omega arith) (omega arith) (omega arith) refl refl

validate-new_all_example : validate first ≡ (nonneg (pos 100) && not (0 % 2 ^ 32 == 0))
unfolding new_all pack
validate-new_all_example = validate-new_all requests 0 refl refl

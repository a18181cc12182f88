-- ===== src/Options/Cores/Choice.antt =====
-- Which cores `get_core_ids` of src/options.rs chooses on Linux.
use rnet.Prelude.{
  ℕ, zero, suc, ◌+◌, ◌≤◌, ◌≡◌, ◌≢◌, subst, ◌⊎◌, inl, inr, refl, ap, sym, ◌∙◌, true, false, List, [],
  ◌∷◌, ◌++◌, some, arith, leb, ◌==◌, length, if◌then◌else◌, Bool-cases, append_assoc, append-nil,
  length-append,
}
use rnet.Prelude.Text.{eq_text_iff}
use rnet.Options.Cores.{TopoKey, eq_key, contains, select_loop, get_core_ids}

-- Some of the items, in their order.
pub data Subsequence : List ℕ → List ℕ → Type 0 where
  done : Subsequence [] []
  skip : {x : ℕ} {xs ys : List ℕ} → Subsequence xs ys → Subsequence xs (x ∷ ys)
  keep : {x : ℕ} {xs ys : List ℕ} → Subsequence xs ys → Subsequence (x ∷ xs) (x ∷ ys)

Subsequence-nil : (xs : List ℕ) → Subsequence [] xs
Subsequence-nil [] = done
Subsequence-nil (x ∷ xs) = skip (Subsequence-nil xs)

module _ (key : ℕ → TopoKey) where
  -- The first `room` cores whose keys are new.
  pick : ℕ → List TopoKey → List ℕ → List ℕ
  pick zero seen cores = []
  pick (suc room) seen [] = []
  pick (suc room) seen (core ∷ cores) =
      let skipped = pick (suc room) seen cores in
      let kept = core ∷ pick room (key core ∷ seen) cores in
      if contains seen (key core) then skipped else kept

  select_loop-pick :
      (target room : ℕ) (selected : List ℕ) (seen : List TopoKey) (cores : List ℕ)
      → target ≡ length selected + room
      → select_loop key target selected seen cores ≡ selected ++ pick room seen cores
  unfolding select_loop pick
  select_loop-pick target zero selected seen [] h = sym (append-nil selected)
  select_loop-pick target (suc room) selected seen [] h = sym (append-nil selected)
  select_loop-pick target zero selected seen (core ∷ cores) h =
      let full : leb target (length selected) ≡ true = ground arith in
      rw full (sym (append-nil selected))
  select_loop-pick target (suc room) selected seen (core ∷ cores) h =
      let space : leb target (length selected) ≡ false = ground arith in
      elim (Bool-cases (contains seen (key core))) [
        | inl old ↦ rw (space, old) (select_loop-pick target (suc room) selected seen cores h)
        | inr new ↦
            rw (space, new)
              (select_loop-pick target room (selected ++ (core ∷ [])) (key core ∷ seen) cores
                  (omega (arith, length-append selected (core ∷ [])))
                ∙ append_assoc selected (core ∷ []) (pick room (key core ∷ seen) cores))
      ]

  -- No key of the list is among those seen or comes twice.
  abbrev pub AllDifferent : List TopoKey → List ℕ → Type 0
  AllDifferent seen [] = Unit {0}
  AllDifferent seen (core ∷ cores) =
      (contains seen (key core) ≡ false) × AllDifferent (key core ∷ seen) cores

  -- Every core's key is among those given.
  abbrev pub AllSeen : List TopoKey → List ℕ → Type 0
  AllSeen seen [] = Unit {0}
  AllSeen seen (core ∷ cores) = (contains seen (key core) ≡ true) × AllSeen seen cores

  pick-AllDifferent :
      (room : ℕ) (seen : List TopoKey) (cores : List ℕ) → AllDifferent seen (pick room seen cores)
  unfolding pick
  pick-AllDifferent zero seen cores = tt
  pick-AllDifferent (suc room) seen [] = tt
  pick-AllDifferent (suc room) seen (core ∷ cores) = elim (Bool-cases (contains seen (key core))) [
    | inl old ↦ rw old (pick-AllDifferent (suc room) seen cores)
    | inr new ↦ rw new (new, pick-AllDifferent room (key core ∷ seen) cores)
  ]

  length-pick :
      (room : ℕ) (seen : List TopoKey) (cores : List ℕ) → length (pick room seen cores) ≤ room
  unfolding pick
  length-pick zero seen cores = omega arith
  length-pick (suc room) seen [] = omega arith
  length-pick (suc room) seen (core ∷ cores) =
      ground (arith, length-pick (suc room) seen cores, length-pick room (key core ∷ seen) cores)

  -- The keys seen once the cores were selected too.
  abbrev pub seen_after : List TopoKey → List ℕ → List TopoKey
  seen_after seen [] = seen
  seen_after seen (core ∷ cores) = seen_after (key core ∷ seen) cores

  eq_key_refl : (k : TopoKey) → eq_key k k ≡ true
  eq_key_refl k = rw ((eq_text_iff k.socket k.socket).1 refl, (eq_text_iff k.core k.core).1 refl)

  contains-seen_after :
      (cores : List ℕ) (seen : List TopoKey) (k : TopoKey)
      → contains seen k ≡ true
      → contains (seen_after seen cores) k ≡ true
  contains-seen_after [] seen k h = h
  contains-seen_after (core ∷ cores) seen k h =
      contains-seen_after cores (key core ∷ seen) k (ground arith)

  pick_old :
      (room core : ℕ) (seen : List TopoKey) (cores : List ℕ)
      → contains seen (key core) ≡ true
      → pick (suc room) seen (core ∷ cores) ≡ pick (suc room) seen cores
  unfolding pick
  pick_old room core seen cores old = rw old

  pick_new :
      (room core : ℕ) (seen : List TopoKey) (cores : List ℕ)
      → contains seen (key core) ≡ false
      → pick (suc room) seen (core ∷ cores) ≡ core ∷ pick room (key core ∷ seen) cores
  unfolding pick
  pick_new room core seen cores new = rw new

  pick_full :
      (room : ℕ) (seen : List TopoKey) → room ≡ 0 → (cores : List ℕ) → pick room seen cores ≡ []
  unfolding pick
  pick_full zero seen e cores = refl
  pick_full (suc room) seen e cores = absurd (omega arith)

  abbrev Chosen : ℕ → List TopoKey → List ℕ → List ℕ → Type 0
  Chosen room seen cores chosen = (length chosen ≡ room) ⊎ AllSeen (seen_after seen chosen) cores

  -- Fewer cores than there is room for are chosen only when no key is left out.
  pick-AllSeen :
      (room : ℕ) (seen : List TopoKey) (cores : List ℕ)
      → (length (pick room seen cores) ≡ room)
        ⊎ AllSeen (seen_after seen (pick room seen cores)) cores
  pick-AllSeen zero seen cores = inl (ap length (pick_full 0 seen refl cores))
  pick-AllSeen (suc room) seen [] = inr tt
  pick-AllSeen (suc room) seen (core ∷ cores) = elim (Bool-cases (contains seen (key core))) [
    | inl old ↦
        subst (Chosen (suc room) seen (core ∷ cores)) (sym (pick_old room core seen cores old))
          (elim (pick-AllSeen (suc room) seen cores) [
            | inl full ↦ inl full
            | inr all ↦
                inr (contains-seen_after (pick (suc room) seen cores) seen (key core) old, all)
          ])
    | inr new ↦
        let here : contains (key core ∷ seen) (key core) ≡ true = rw (eq_key_refl (key core)) in
        subst (Chosen (suc room) seen (core ∷ cores)) (sym (pick_new room core seen cores new))
          (elim (pick-AllSeen room (key core ∷ seen) cores) [
            | inl full ↦ inl (ap suc full)
            | inr all ↦ inr (
              contains-seen_after (pick room (key core ∷ seen) cores) (key core ∷ seen) (key core)
                  here,
              all,
            )
          ])
  ]

  pick-Subsequence :
      (room : ℕ) (seen : List TopoKey) (cores : List ℕ) → Subsequence (pick room seen cores) cores
  unfolding pick
  pick-Subsequence zero seen cores = Subsequence-nil cores
  pick-Subsequence (suc room) seen [] = done
  pick-Subsequence (suc room) seen (core ∷ cores) = elim (Bool-cases (contains seen (key core))) [
    | inl old ↦ rw old (skip (pick-Subsequence (suc room) seen cores))
    | inr new ↦ rw new (keep (pick-Subsequence room (key core ∷ seen) cores))
  ]

  -- On Linux, a limit other than 0 selects cores of the machine in their order, no more than the
  -- limit, no two with one topology key; and fewer than the limit only if every core of the
  -- machine shares its key with a selected one.
  pub get_core_ids_lem :
      (all_cores : List ℕ) (target_count : ℕ)
      → target_count ≢ 0
      → let cores = get_core_ids key true all_cores (some target_count) in
        Subsequence cores all_cores
        × (length cores ≤ target_count)
        × AllDifferent [] cores
        × ((length cores ≡ target_count) ⊎ AllSeen (seen_after [] cores) all_cores)
  unfolding get_core_ids
  get_core_ids_lem all_cores target_count some_room =
      let limited : (target_count == 0) ≡ false = ground arith in
      rw (limited, select_loop-pick target_count target_count [] [] all_cores (omega arith))
        (
          pick-Subsequence target_count [] all_cores,
          length-pick target_count [] all_cores,
          pick-AllDifferent target_count [] all_cores,
          pick-AllSeen target_count [] all_cores,
        )

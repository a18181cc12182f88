-- ===== src/Gfd/Packing.antt =====
-- What the accessors of src/gfd.rs read back from the packed word.
use rnet.Prelude.{
  ℕ, ◌+◌, ◌*◌, ◌%◌, ◌^◌, ◌<◌, ◌≡◌, ◌↔◌, ◌⊎◌, Bool, true, false, some, arith, ap₂, ◌∙◌,
}
use rnet.Prelude.Bits.{bit_or_field, bit_and_mask}
use Prim.Native.Nat.{bit_or}
use rnet.Prelude.Int.{ℤ, eq_ℤ_iff}
use rnet.Gfd.{Gfd, pack, new, event_loop_index, slab_index, eq}

-- The word is the sum of its two fields, for any `usize` token.
pub pack_fields :
    (loop_id token : ℕ) → loop_id < 256 → pack loop_id token ≡ loop_id * 2 ^ 24 + token % 2 ^ 24
unfolding pack
pack_fields loop_id token small =
    let high : loop_id * 2 ^ 24 % 2 ^ 32 ≡ loop_id * 2 ^ 24 = omega arith in
    let low = bit_and_mask 24 (token % 2 ^ 32) in
    ap₂ bit_or high (low ∙ low_bits) ∙ bit_or_field 24 loop_id (token % 2 ^ 24) (omega arith)
  where
    low_bits : token % 2 ^ 32 % 2 ^ 24 ≡ token % 2 ^ 24
    low_bits = omega arith

-- A new handle gives back the loop number and the descriptor that it was made from, the low 24 bits
-- of the token, and the counter as its sequence number; its word fits `u32`. With debug assertions
-- no handle is made from a token of more than 24 bits.
pub new_fields :
    (debug : Bool) (mono_seq : ℕ) (fd : ℤ) (loop_id token : ℕ) {g : Gfd} {next : ℕ}
    → loop_id < 256
    → new debug mono_seq fd loop_id token ≡ some (g, next)
    → (event_loop_index g ≡ loop_id)
      × (slab_index g ≡ token % 2 ^ 24)
      × (g.fd ≡ fd)
      × (g.seq ≡ mono_seq)
      × (next ≡ (mono_seq + 1) % 2 ^ 32)
      × (g.index_info < 2 ^ 32)
      × ((debug ≡ false) ⊎ (slab_index g ≡ token))
unfolding new event_loop_index slab_index
new_fields debug mono_seq fd loop_id token {g} small made =
    ground (arith, pack_fields loop_id token small, bit_and_mask 24 g.index_info)

-- The derived `==` holds of two handles exactly when they are the same.
pub eq_iff : (g h : Gfd) → (eq g h ≡ true) ↔ (g ≡ h)
unfolding eq
eq_iff g h = ground (arith, eq_ℤ_iff g.fd h.fd)

-- ===== src/Gfd.antt =====
-- src/gfd.rs: the handle of a connection. `fd` and a global sequence number stand beside one 32-bit
-- word, which holds the event loop's number in its high byte and the slab index below.
-- The global counter MONO_SEQ is an argument, and its next value part of the result.
pub mod Packing
pub mod Sequence
mod Tests
use Prim.Native.Nat.{bit_and, bit_or}
use rnet.Prelude.{
  ℕ, ◌+◌, ◌*◌, ◌/◌, ◌%◌, ◌^◌, Bool, false, ◌&&◌, not, List, [], ◌∷◌, Option, none, some, ltb, ◌==◌,
  if◌then◌else◌,
}
use rnet.Prelude.Int.{ℤ, nonneg, eq_ℤ}

pub record Gfd : Type 0 where
  pub seq : ℕ
  pub index_info : ℕ
  pub fd : ℤ

-- `((loop_id as u32) << 24) | (token as u32 & 0xFFFFFF)`
unfoldable pub pack : ℕ → ℕ → ℕ
pack loop_id token = bit_or (loop_id * 2 ^ 24 % 2 ^ 32) (bit_and (token % 2 ^ 32) 0xFFFFFF)

-- `new` with the counter before the call; `none` is the panic of `debug_assert!`, which only a
-- build with debug assertions makes.
unfoldable pub new : Bool → ℕ → ℤ → ℕ → ℕ → Option (Gfd × ℕ)
new debug_assertions mono_seq fd loop_id token =
    if debug_assertions && not (ltb token (2 ^ 24))
    then none
    else some (
      record { seq = mono_seq; index_info = pack loop_id token; fd = fd },
      (mono_seq + 1) % 2 ^ 32,
    )

unfoldable pub event_loop_index : Gfd → ℕ
event_loop_index g = g.index_info / 2 ^ 24

unfoldable pub slab_index : Gfd → ℕ
slab_index g = bit_and g.index_info 0xFFFFFF

unfoldable pub validate : Gfd → Bool
validate g = nonneg g.fd && ltb 0 g.seq

-- The derived `==`.
unfoldable pub eq : Gfd → Gfd → Bool
eq g h = (g.seq == h.seq) && (g.index_info == h.index_info) && eq_ℤ g.fd h.fd

-- What one call of `new` is given.
pub record Request : Type 0 where
  pub fd : ℤ
  pub loop_id : ℕ
  pub token : ℕ

-- A run of calls of `new` in a release build, in the order in which they take the counter.
unfoldable pub new_all : ℕ → List Request → List Gfd
unfolding new
new_all mono_seq [] = []
new_all mono_seq (r ∷ rs) = elim (new false mono_seq r.fd r.loop_id r.token) [
  | none ↦ []
  | some (g, next) ↦ g ∷ new_all next rs
]

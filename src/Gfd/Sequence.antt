-- ===== src/Gfd/Sequence.antt =====
-- The sequence numbers of src/gfd.rs over a run of calls of `new`.
use rnet.Prelude.{
  ℕ, zero, suc, ◌+◌, ◌%◌, ◌^◌, ◌<◌, ◌≡◌, ◌&&◌, not, false, List, [], ◌∷◌, some, arith, get_elem?,
  ◌==◌,
}
use rnet.Prelude.Int.{nonneg}
use rnet.Gfd.{Gfd, Request, new_all, eq, validate}

pub seq-new_all :
    (rs : List Request) (c i : ℕ) {g : Gfd}
    → c < 2 ^ 32
    → get_elem? (new_all c rs) i ≡ some g
    → g.seq ≡ (c + i) % 2 ^ 32
unfolding new_all
seq-new_all [] c i small found = ground arith
seq-new_all (r ∷ rs) c zero small found = ground arith
seq-new_all (r ∷ rs) c (suc i) small found =
    omega (arith, seq-new_all rs ((c + 1) % 2 ^ 32) i (omega arith) found)

fd-new_all :
    (rs : List Request) (c i : ℕ) {g : Gfd} {r : Request}
    → get_elem? (new_all c rs) i ≡ some g
    → get_elem? rs i ≡ some r
    → g.fd ≡ r.fd
unfolding new_all
fd-new_all [] c i found asked = ground arith
fd-new_all (x ∷ rs) c zero found asked = ground arith
fd-new_all (x ∷ rs) c (suc i) found asked = fd-new_all rs ((c + 1) % 2 ^ 32) i found asked

-- Of any 2^32 handles in a row no two compare equal, whatever they were made from.
pub new_all-distinct :
    (rs : List Request) (c i j : ℕ) {g h : Gfd}
    → c < 2 ^ 32
    → i < j
    → j < i + 2 ^ 32
    → get_elem? (new_all c rs) i ≡ some g
    → get_elem? (new_all c rs) j ≡ some h
    → eq g h ≡ false
unfolding eq
new_all-distinct rs c i j small order near at_i at_j =
    ground (arith, seq-new_all rs c i small at_i, seq-new_all rs c j small at_j)

-- Counted from the start of the program, `validate` accepts a handle exactly when its descriptor is
-- not negative and its place in the run is no multiple of 2^32; so it refuses the first one.
pub validate-new_all :
    (rs : List Request) (i : ℕ) {g : Gfd} {r : Request}
    → get_elem? (new_all 0 rs) i ≡ some g
    → get_elem? rs i ≡ some r
    → validate g ≡ (nonneg r.fd && not (i % 2 ^ 32 == 0))
unfolding validate
validate-new_all rs i found asked =
    ground (arith, seq-new_all rs 0 i (omega arith) found, fd-new_all rs 0 i found asked)

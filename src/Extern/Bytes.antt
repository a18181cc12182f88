-- ===== src/Extern/Bytes.antt =====
-- `BytesMut` and `Bytes` of the crate `bytes`, seen through the slices that they dereference to.
-- An operation that panics out of range has its law only within it.
use rnet.Prelude.{ℕ, ◌≤◌, ◌≡◌, List, [], ◌++◌, length, take, drop, leb, if◌then◌else◌}
use rnet.Io.{Run, ret, panic}

pub record BytesApi : Type 1 where
  pub BytesMut : Type 0
  pub Bytes : Type 0
  -- `&b[..]`, by `Deref`; `len`, `is_empty` and `remaining` are those of the slice.
  pub contents : BytesMut → List ℕ
  pub chunk : Bytes → List ℕ
  -- `BytesMut::new()`, and `with_capacity`, which holds no bytes either.
  pub new : BytesMut
  pub extend_from_slice : BytesMut → List ℕ → BytesMut
  -- What is split off, and what stays.
  pub split_to : BytesMut → ℕ → BytesMut × BytesMut
  pub advance : BytesMut → ℕ → BytesMut
  pub clear : BytesMut → BytesMut
  pub freeze : BytesMut → Bytes
  pub copy_from_slice : List ℕ → Bytes
  -- `b.slice(n..)` and `Buf::advance`.
  pub slice_from : Bytes → ℕ → Bytes
  pub advance_chunk : Bytes → ℕ → Bytes
  pub contents-new : contents new ≡ []
  pub contents-extend_from_slice :
      (b : BytesMut) (s : List ℕ) → contents (extend_from_slice b s) ≡ contents b ++ s
  pub contents-split_to_front :
      (b : BytesMut) (n : ℕ)
      → n ≤ length (contents b)
      → contents (split_to b n).0 ≡ take n (contents b)
  pub contents-split_to_back :
      (b : BytesMut) (n : ℕ)
      → n ≤ length (contents b)
      → contents (split_to b n).1 ≡ drop n (contents b)
  pub contents-advance :
      (b : BytesMut) (n : ℕ)
      → n ≤ length (contents b)
      → contents (advance b n) ≡ drop n (contents b)
  pub contents-clear : (b : BytesMut) → contents (clear b) ≡ []
  pub chunk-freeze : (b : BytesMut) → chunk (freeze b) ≡ contents b
  pub chunk-copy_from_slice : (s : List ℕ) → chunk (copy_from_slice s) ≡ s
  pub chunk-slice_from :
      (b : Bytes) (n : ℕ) → n ≤ length (chunk b) → chunk (slice_from b n) ≡ drop n (chunk b)
  pub chunk-advance_chunk :
      (b : Bytes) (n : ℕ) → n ≤ length (chunk b) → chunk (advance_chunk b n) ≡ drop n (chunk b)

-- A check of a length that the source leaves to the callee's panic.
abbrev pub in_range {ℓ} : {A : Type ℓ} → ℕ → List ℕ → A → Run A
in_range n s a = if leb n (length s) then ret a else panic

-- `&s[..n]`.
abbrev pub slice_to : List ℕ → ℕ → Run (List ℕ)
slice_to s n = in_range n s (take n s)

-- `&s[n..]`.
abbrev pub slice_after : List ℕ → ℕ → Run (List ℕ)
slice_after s n = in_range n s (drop n s)

-- ===== src/Options/Idempotence.antt =====
-- `OptionsBuilder::build` of src/options.rs leaves options alone that it has built.
use native.Mathlib.Nat.{pow-suc, pow-le-pow_right}
use rnet.Prelude.{
  ℕ, suc, ◌*◌, ◌^◌, ◌≤◌, ◌<◌, ◌≡◌, inl, inr, refl, ap, ◌∙◌, Bool, true, false, arith, leb, ltb,
  Bool-cases, dec_le,
}
use rnet.Io.{Run, ret}
use rnet.Options.{
  Options, OptionsBuilder, ceil_to_power_of_two, normalize_buffer_size, batch_size, fill, build,
  with_options, builder,
}
use rnet.Options.Build.{build_of}
use rnet.Options.Power.{ceil_to_power_of_two_lem, normalize_buffer_size_lem}

-- Powers of two with `2^j` in `[2^k, 2^(k+1))` have one exponent.
pub exponent_unique : (j k : ℕ) → 2 ^ k ≤ 2 ^ j → 2 ^ j < 2 * 2 ^ k → j ≡ k
exponent_unique j k low high =
    let two_pos : 0 < 2 = omega arith in
    elim (dec_le j k) [
      | yes below ↦ elim (dec_le k j) [
        | yes above ↦ omega arith
        | no lt ↦
            let next = pow-suc 2 j in
            let step = pow-le-pow_right two_pos {i = suc j} {j = k} (omega arith) in
            let positive = pow-le-pow_right two_pos {i = 0} {j = j} (omega arith) in
            absurd (omega arith)
      ]
      | no gt ↦
          let next = pow-suc 2 k in
          let step = pow-le-pow_right two_pos {i = suc k} {j = j} (omega arith) in
          absurd (omega arith)
    ]

-- What rounding gives is a power of two that rounding leaves alone.
abbrev pub Rounded : Bool → (Bool → ℕ → Run ℕ) → ℕ → ℕ → Type 0
Rounded oc round size least =
    (k : ℕ) × (round oc size ≡ ret (2 ^ k))
    × (least ≤ 2 ^ k)
    × (size ≤ 2 ^ k)
    × (2 ^ k ≤ 2 ^ 63)
    × (round oc (2 ^ k) ≡ ret (2 ^ k))

top_exponent : (k n : ℕ) → n ≤ 2 ^ 63 → 2 ^ k < 2 * n → 2 ^ k ≤ 2 ^ 63
top_exponent k n h small = elim (dec_le k 63) [
  | yes le ↦ pow-le-pow_right {n = 2} (omega arith) le
  | no gt ↦
      let step = pow-le-pow_right {n = 2} (omega arith) {i = 64} {j = k} (omega arith) in
      absurd (omega arith)
]

ceil-two_pow :
    (oc : Bool) (k : ℕ) → 1 ≤ k → 2 ^ k ≤ 2 ^ 63 → ceil_to_power_of_two oc (2 ^ k) ≡ ret (2 ^ k)
ceil-two_pow oc k pos small =
    let (j, found, one, above, least) = ceil_to_power_of_two_lem oc (2 ^ k) small in
    let base = pow-le-pow_right {n = 2} (omega arith) pos in
    let same : j ≡ k = elim least [
      | inl e ↦ exponent_unique j k above (let e' : 2 ^ j ≡ 2 = rw e in omega arith)
      | inr below ↦ exponent_unique j k above below
    ] in
    rw found (ap (λ (t : ℕ). ret (2 ^ t)) same)

normalize_two_pow :
    (oc : Bool) (k : ℕ)
    → 1024 ≤ 2 ^ k
    → 2 ^ k ≤ 2 ^ 63
    → normalize_buffer_size oc (2 ^ k) ≡ ret (2 ^ k)
unfolding normalize_buffer_size
normalize_two_pow oc k big small = elim (Bool-cases (leb (2 ^ k) 1024)) [
  | inl e ↦ let same : 2 ^ k ≡ 1024 = ground arith in rw same
  | inr e ↦
      let pos : 1 ≤ k = exponent_ge_one k big in
      let zero_test : leb (2 ^ k) 0 ≡ false = ground arith in
      rw (zero_test, e) (ceil-two_pow oc k pos small)
]
  where
    exponent_ge_one : (k : ℕ) → 1024 ≤ 2 ^ k → 1 ≤ k
    exponent_ge_one k h = elim (dec_le 1 k) [
      | yes le ↦ le
      | no gt ↦
          let none_left : k ≡ 0 = omega arith in
          let e : 2 ^ k ≡ 1 = rw none_left in absurd (omega arith)
    ]

normalize-Rounded :
    (oc : Bool) (size : ℕ) → size ≤ 2 ^ 63 → Rounded oc normalize_buffer_size size 1024
normalize-Rounded oc size h = elim (normalize_buffer_size_lem oc size h) [
  | inl (nothing, found) ↦ (
    16,
    found,
    omega arith,
    omega arith,
    omega arith,
    normalize_two_pow oc 16 (omega arith) (omega arith),
  )
  | inr (k, found, big, above, least) ↦
      let small : 2 ^ k ≤ 2 ^ 63 = elim least [
        | inl e ↦ omega arith
        | inr below ↦ top_exponent k size h below
      ] in
      (k, found, big, above, small, normalize_two_pow oc k big small)
]

batch-Rounded : (oc : Bool) (n : ℕ) → n ≤ 2 ^ 63 → Rounded oc batch_size n 2
unfolding batch_size
batch-Rounded oc n h = elim (Bool-cases (ltb 0 n)) [
  | inr none_asked ↦
      let zero_size : n ≤ 0 = ground arith in
      (
        20,
        rw none_asked,
        omega arith,
        omega arith,
        omega arith,
        ceil-two_pow oc 20 (omega arith) (omega arith),
      )
  | inl asked ↦
      let (k, found, one, above, least) = ceil_to_power_of_two_lem oc n h in
      let base = pow-le-pow_right {n = 2} (omega arith) one in
      let small : 2 ^ k ≤ 2 ^ 63 = elim least [
        | inl e ↦ let e' : 2 ^ k ≡ 2 = rw e in omega arith
        | inr below ↦ top_exponent k n h below
      ] in
      let again : ltb 0 (2 ^ k) ≡ true = ground arith in
      (k, rw (asked, found), omega arith, above, small, rw again (ceil-two_pow oc k one small))
]

fill-with_options : (o : Options) → fill (with_options builder o) ≡ o
unfolding fill with_options
fill-with_options o = refl

-- Options that were built once are built into themselves.
pub build_idem :
    (oc : Bool) (b : OptionsBuilder)
    → (fill b).max_batch_size ≤ 2 ^ 63
    → (fill b).read_buffer_cap ≤ 2 ^ 63
    → (fill b).write_buffer_cap ≤ 2 ^ 63
    → (opts : Options) × (build oc b ≡ ret opts) × (build oc (with_options builder opts) ≡ ret opts)
build_idem oc b small_batch small_read small_write =
    let (i, batch, i_least, i_above, i_small, i_again) = batch-Rounded oc _ small_batch in
    let (j, read, j_least, j_above, j_small, j_again) = normalize-Rounded oc _ small_read in
    let (k, write, k_least, k_above, k_small, k_again) = normalize-Rounded oc _ small_write in
    let opts : Options = record (fill b) {
      max_batch_size = 2 ^ i;
      read_buffer_cap = 2 ^ j;
      write_buffer_cap = 2 ^ k;
    } in
    let same = fill-with_options opts in
    (
      opts,
      build_of oc b (2 ^ i) (2 ^ j) (2 ^ k) batch read write,
      build_of oc (with_options builder opts) (2 ^ i) (2 ^ j) (2 ^ k) (rw same i_again)
            (rw same j_again) (rw same k_again)
          ∙ rw same,
    )

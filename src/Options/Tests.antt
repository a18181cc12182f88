-- ===== src/Options/Tests.antt =====
-- Options on concrete values.
use rnet.Prelude.{
  ℕ, zero, suc, ◌*◌, ◌^◌, ◌≤◌, ◌<◌, ◌≡◌, ◌⊎◌, refl, true, false, List, [], ◌∷◌, Option, none, some,
  length, arith,
}
use rnet.Prelude.Text.{codes}
use rnet.Io.{ret}
use rnet.SocketAddr.{SocketAddr}
use rnet.Options.{
  Options, OptionsBuilder, builder, default_options, ceil_to_power_of_two, normalize_buffer_size,
  power_from, next_power_of_two, build,
}
use rnet.Options.Power.{normalize_buffer_size_lem}
use rnet.Options.Build
use rnet.Options.Build.{RoundsUp, build_lem}
use rnet.Options.Cores.{TopoKey, get_core_ids, select_loop}
use rnet.Options.Cores.Choice.{Subsequence, AllDifferent, AllSeen, seen_after, get_core_ids_lem}

ceil_run : ceil_to_power_of_two true 1025 ≡ ret 2048
unfolding ceil_to_power_of_two next_power_of_two power_from
ceil_run = refl

normalize_buffer_size_lem_example :
    ((◌≡◌ {A = ℕ} 5000 0) × (normalize_buffer_size false 5000 ≡ ret (2 ^ 16)))
    ⊎ ((k : ℕ) × (normalize_buffer_size false 5000 ≡ ret (2 ^ k))
        × (1024 ≤ 2 ^ k)
        × (5000 ≤ 2 ^ k)
        × ((2 ^ k ≡ 1024) ⊎ (2 ^ k < 2 * 5000)))
normalize_buffer_size_lem_example = normalize_buffer_size_lem false 5000 (omega arith)

abbrev asked : OptionsBuilder
asked = record builder { read_buffer_cap = some 5000; reuse_port = some true }

build_lem_example :
    (o : Options) × (build true asked ≡ ret o)
    × Build.Keeps asked default_options o
    × RoundsUp 2 1048576 default_options.max_batch_size o.max_batch_size
    × RoundsUp 1024 65536 5000 o.read_buffer_cap
    × RoundsUp 1024 65536 default_options.write_buffer_cap o.write_buffer_cap
build_lem_example =
    build_lem true asked default_options default_options.max_batch_size 5000
      default_options.write_buffer_cap refl refl refl refl (omega arith) (omega arith) (omega arith)

-- Nothing is a TCP address here.
abbrev parse_none : List ℕ → Option SocketAddr
parse_none s = none

abbrev texts : List (List ℕ)
texts = codes "unix:///tmp/a" ∷ codes "unix:///tmp/b" ∷ []

-- Two threads on each physical core.
abbrev two_threads : ℕ → TopoKey
two_threads zero = record { socket = 48 ∷ []; core = 48 ∷ [] }
two_threads (suc zero) = record { socket = 48 ∷ []; core = 48 ∷ [] }
two_threads (suc (suc n)) = record { socket = 48 ∷ []; core = 49 ∷ [] }

cores_run : get_core_ids two_threads true (0 ∷ 1 ∷ 2 ∷ 3 ∷ []) (some 3) ≡ 0 ∷ 2 ∷ []
unfolding get_core_ids select_loop
cores_run = refl

get_core_ids_lem_example :
    let cores = get_core_ids two_threads true (0 ∷ 1 ∷ 2 ∷ 3 ∷ []) (some 3) in
    Subsequence cores (0 ∷ 1 ∷ 2 ∷ 3 ∷ [])
    × (length cores ≤ 3)
    × AllDifferent two_threads [] cores
    × ((length cores ≡ 3)
        ⊎ AllSeen two_threads (seen_after two_threads [] cores) (0 ∷ 1 ∷ 2 ∷ 3 ∷ []))
get_core_ids_lem_example = get_core_ids_lem two_threads (0 ∷ 1 ∷ 2 ∷ 3 ∷ []) 3 (λ e. ground arith)

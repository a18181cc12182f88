-- ===== src/Options/Cores.antt =====
-- `get_core_ids` of src/options.rs: at most so many cores, no two of them on one physical core. The
-- cores of the machine (crate core_affinity) and the file system are arguments.
pub mod Choice
use rnet.Prelude.{
  ℕ, zero, suc, Bool, true, false, ◌||◌, ◌&&◌, not, List, [], ◌∷◌, ◌++◌, Option, none, some, leb,
  ◌==◌, take, length, if◌then◌else◌,
}
use rnet.Prelude.Text.{codes, eq_text}

pub record TopoKey : Type 0 where
  pub socket : List ℕ
  pub core : List ℕ

-- The derived `==`.
abbrev pub eq_key : TopoKey → TopoKey → Bool
eq_key a b = eq_text a.socket b.socket && eq_text a.core b.core

-- `HashSet::contains`.
abbrev pub contains : List TopoKey → TopoKey → Bool
contains [] k = false
contains (j ∷ seen) k = eq_key j k || contains seen k

-- What a file under /sys holds, trimmed, or what stands in for it if it cannot be read.
abbrev pub or_else : Option (List ℕ) → List ℕ → List ℕ
or_else (some s) d = s
or_else none d = d

-- `read` stands for `fs::read_to_string`, `show` for the decimal text of a number, and `trim` for
-- `str::trim`.
unfoldable pub get_linux_topology_key :
    (read : List ℕ → Option (List ℕ)) (show : ℕ → List ℕ) (trim : List ℕ → List ℕ) → ℕ → TopoKey
get_linux_topology_key read show trim cpu_id =
    let base = codes "/sys/devices/system/cpu/cpu" ++ show cpu_id ++ codes "/topology/" in
    record {
      socket = trim (or_else (read (base ++ codes "physical_package_id")) (codes "0"));
      core = trim (or_else (read (base ++ codes "core_id")) (show cpu_id));
    }

-- The version for other systems.
unfoldable pub get_other_topology_key : (show : ℕ → List ℕ) → ℕ → TopoKey
get_other_topology_key show cpu_id = record { socket = codes "0"; core = show cpu_id }

module _ (key : ℕ → TopoKey) where
  -- The loop over the cores, with the cores selected and the keys seen so far.
  unfoldable pub select_loop : ℕ → List ℕ → List TopoKey → List ℕ → List ℕ
  select_loop target_count selected seen [] = selected
  select_loop target_count selected seen (core ∷ cores) =
      let skip = select_loop target_count selected seen cores in
      let keep = select_loop target_count (selected ++ (core ∷ [])) (key core ∷ seen) cores in
      if leb target_count (length selected)
      then selected
      else if contains seen (key core)
      then skip
      else keep

  -- `linux` is `cfg!(target_os = "linux")`.
  unfoldable pub get_core_ids : (linux : Bool) (all_cores : List ℕ) → Option ℕ → List ℕ
  get_core_ids linux all_cores none = all_cores
  get_core_ids linux all_cores (some target_count) =
      if target_count == 0
      then all_cores
      else if not linux
      then take target_count all_cores
      else select_loop target_count [] [] all_cores

-- ===== src/Runtime/Profile/Tests.antt =====
-- Concrete machines.
use sourcevcode_orchestrator.Prelude.{ℕ, ◌+◌, ◌≤◌, ◌<◌, none, some, ◌≡◌, refl}
use sourcevcode_orchestrator.Prelude.Int.{pos}
use sourcevcode_orchestrator.Runtime.Profile.{detect_execution_profile, profile_bounds}

capped_machine : (detect_execution_profile 8 8 (some (pos 2)) (some (pos 4))).usable_parallelism ≡ 4
unfolding detect_execution_profile
capped_machine = refl

small_machine : (detect_execution_profile 1 1 (some (pos 9)) none).usable_parallelism ≡ 1
unfolding detect_execution_profile
small_machine = refl

profile_bounds_example :
    let p = detect_execution_profile 8 8 (some (pos 2)) (some (pos 4)) in
    (0 < p.usable_parallelism)
    × (p.reserved_procs + p.usable_parallelism ≤ p.max_procs)
    × (0 < p.logical_cpus)
    × ((n : ℕ) → some (pos 4) ≡ some (pos n) → 0 < n → p.usable_parallelism ≤ n)
profile_bounds_example = profile_bounds 8 8 (some (pos 2)) (some (pos 4))

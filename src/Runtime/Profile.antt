-- ===== src/Runtime/Profile.antt =====
-- go-core/internal/kernel/execution_profile.go: how many tasks may run at once. The processor counts of the
-- runtime and the values of the environment are arguments; `none` is a variable that is not set to a number.
mod Tests
use sourcevcode_orchestrator.Prelude.{
  ℕ, ◌+◌, ◌-◌, ◌≤◌, ◌<◌, Option, none, some, Bool, ◌≡◌, refl, arith, if◌then◌else◌, ltb, leb, ◌&&◌,
}
use sourcevcode_orchestrator.Prelude.Int.{ℤ, pos, negsuc, pos_part}

pub record ExecutionProfile : Type 0 where
  pub logical_cpus : ℕ
  pub max_procs : ℕ
  pub reserved_procs : ℕ
  pub usable_parallelism : ℕ

abbrev pub at_least_one : ℕ → ℕ
at_least_one n = if ltb n 1 then 1 else n

-- The reserve from the environment, or 1, and not below 0.
abbrev pub wanted_reserve : Option ℤ → ℕ
wanted_reserve none = 1
wanted_reserve (some r) = pos_part r

-- A positive cap below the parallelism replaces it.
abbrev pub capped : Option ℤ → ℕ → ℕ
capped none usable = usable
capped (some cap) usable =
    if ltb 0 (pos_part cap) && ltb (pos_part cap) usable then pos_part cap else usable

unfoldable pub detect_execution_profile : ℕ → ℕ → Option ℤ → Option ℤ → ExecutionProfile
detect_execution_profile cpus procs reserve cap =
    let max_procs = at_least_one procs in
    let wanted = wanted_reserve reserve in
    let reserved = if leb max_procs wanted then max_procs - 1 else wanted in
    record {
      logical_cpus = at_least_one cpus;
      max_procs = max_procs;
      reserved_procs = reserved;
      usable_parallelism = capped cap (at_least_one (max_procs - reserved));
    }

-- Whatever the machine and the environment say, at least one task may run, the reserved processors and
-- those in use are no more than there are, and a positive cap is not exceeded.
pub profile_bounds :
    (cpus procs : ℕ) (reserve cap : Option ℤ)
    → let p = detect_execution_profile cpus procs reserve cap in
      (0 < p.usable_parallelism)
      × (p.reserved_procs + p.usable_parallelism ≤ p.max_procs)
      × (0 < p.logical_cpus)
      × ((n : ℕ) → cap ≡ some (pos n) → 0 < n → p.usable_parallelism ≤ n)
unfolding detect_execution_profile
profile_bounds cpus procs reserve cap =
    (ground arith, ground arith, ground arith, λ n e h. ground arith)

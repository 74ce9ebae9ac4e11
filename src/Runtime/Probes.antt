-- ===== src/Runtime/Probes.antt =====
-- go-core/internal/kernel/provider_probe_manager.go. Observe and the two locked parts of runProbe are steps on
-- the manager's state; between them a worker holds a provider that it took from the queue or that it
-- probes. A reporter stands by its name, and its answer is any health. A time is a number, 0 the zero time.
-- The configuration comes from the environment; its durations are positive there.
pub mod Single
pub mod Quiet
mod Tests
use sourcevcode_orchestrator.Prelude.{
  ℕ, zero, suc, ◌+◌, String, List, [], ◌∷◌, ◌++◌, Option, none, some, Bool, true, false, not, ◌&&◌,
  ◌||◌, ◌≡◌, if◌then◌else◌, ◌==◌, ltb, length, trim, lower_is, fold_is, update,
}

-- Without the runtime capabilities, which pass through.
pub record ProviderHealth : Type 0 where
  pub provider : String
  pub configured : Bool
  pub available : Bool
  pub status : String
  pub base_url : String
  pub error : String
  pub observed_at : ℕ
  pub probe_queued : Bool
  pub cooldown_until : Option ℕ
  pub refresh_after : Option ℕ

pub record ProviderProbeState : Type 0 where
  pub reporter : Option String
  pub fallback : ProviderHealth
  pub cached : Option ProviderHealth
  pub refresh_after : ℕ
  pub cooldown_until : ℕ
  pub inflight : Bool
  pub queued : Bool

pub record ProbeConfig : Type 0 where
  pub ttl : ℕ
  pub failure_cooldown : ℕ
  pub rate_limit_cooldown : ℕ
  pub queue_size : ℕ

-- `taken` are the providers that a worker has received and not yet begun to probe.
pub record ProviderProbeManager : Type 0 where
  pub config : ProbeConfig
  pub queue : List String
  pub taken : List String
  pub probing : List String
  pub states : String → ProviderProbeState

abbrev pub no_health : ProviderHealth
no_health = record {
  provider = "";
  configured = false;
  available = false;
  status = "";
  base_url = "";
  error = "";
  observed_at = 0;
  probe_queued = false;
  cooldown_until = none;
  refresh_after = none;
}

-- What stateLocked makes of a provider that it does not know.
abbrev pub no_state : ProviderProbeState
no_state = record {
  reporter = none;
  fallback = no_health;
  cached = none;
  refresh_after = 0;
  cooldown_until = 0;
  inflight = false;
  queued = false;
}

unfoldable pub new_provider_probe_manager : ProbeConfig → ProviderProbeManager
new_provider_probe_manager config = record {
  config = config;
  queue = [];
  taken = [];
  probing = [];
  states = λ provider. no_state;
}

-- `!t.IsZero() && now.Before(t)`
abbrev pub is_ahead : ℕ → ℕ → Bool
is_ahead t now = ltb 0 t && ltb now t

abbrev pub is_some_reporter : Option String → Bool
is_some_reporter none = false
is_some_reporter (some r) = true

unfoldable pub should_queue : ProviderProbeState → ℕ → Bool
should_queue s now =
    if not (is_some_reporter s.reporter) || s.queued || s.inflight
    then false
    else if is_ahead s.cooldown_until now
    then false
    else if is_ahead s.refresh_after now
    then false
    else true

unfoldable pub select_provider_health : ProviderHealth → ProviderHealth → ProviderHealth
unfolding fold_is trim
select_provider_health fallback probe =
    if probe.provider == ""
    then fallback
    else if fallback.provider == ""
    then probe
    else if probe.available
    then probe
    else if fallback.available
    then fallback
    else if fold_is (trim fallback.status) "configured"
    then probe
    else if ltb probe.observed_at fallback.observed_at
    then fallback
    else probe

abbrev pub best_known : ProviderProbeState → ProviderHealth
best_known s = elim s.cached [
  | none ↦ s.fallback
  | some cached ↦ select_provider_health s.fallback cached
]

unfoldable pub current_health : ProviderProbeState → ℕ → ProviderHealth
unfolding select_provider_health
current_health s now =
    let health = best_known s in
    record health {
      provider = if health.provider == "" then s.fallback.provider else health.provider;
      observed_at = if ltb 0 health.observed_at then health.observed_at else now;
      probe_queued = s.queued || s.inflight;
      cooldown_until = if is_ahead s.cooldown_until now then some s.cooldown_until else none;
      refresh_after = if ltb 0 s.refresh_after then some s.refresh_after else none;
    }

-- refreshDelay and cooldown.
unfoldable pub schedule_for : ProbeConfig → ProviderHealth → ℕ × ℕ
unfolding lower_is trim
schedule_for c health =
    let status = trim health.status in
    let failed : ℕ × ℕ = (c.failure_cooldown, c.failure_cooldown) in
    if lower_is status "ready"
    then (c.ttl, 0)
    else if lower_is status "rate_limited"
    then (c.rate_limit_cooldown, c.rate_limit_cooldown)
    else if lower_is status "not_configured"
    then failed
    else if lower_is status "degraded" || lower_is status "unavailable"
    then failed
    else if health.available
    then (c.ttl, 0)
    else failed

-- now.Add(delay), or the zero time where there is no delay.
abbrev pub delayed : ℕ → ℕ → ℕ
delayed now delay = if ltb 0 delay then now + delay else 0

abbrev pub with_state : String → ProviderProbeState → ProviderProbeManager → ProviderProbeManager
with_state provider s m = record m { states = update m.states provider s }

-- The state after the assignments of Observe.
abbrev pub observed_state :
    String → ProviderHealth → Option String → ProviderProbeState → ProviderProbeState
observed_state provider fallback reporter s = record s {
  reporter = reporter;
  fallback = if fallback.provider == "" then record fallback { provider = provider } else fallback;
}

-- The send on the queue, which has room or gives up.
abbrev pub wants_probe : ProviderProbeManager → ℕ → Bool → ProviderProbeState → Bool
wants_probe m now probe s = probe && should_queue s now && ltb (length m.queue) m.config.queue_size

unfoldable pub observe_named :
    ProviderProbeManager
    → ℕ
    → String
    → ProviderHealth
    → Option String
    → Bool
    → ProviderProbeManager × ProviderHealth
unfolding should_queue current_health
observe_named m now provider fallback reporter probe =
    let s = observed_state provider fallback reporter (m.states provider) in
    if wants_probe m now probe s
    then (let s' = record s { queued = true } in
        (
          with_state provider s' (record m { queue = m.queue ++ (provider ∷ []) }),
          current_health s' now,
        ))
    else (with_state provider s m, current_health s now)

unfoldable pub observe :
    ProviderProbeManager
    → ℕ
    → String
    → ProviderHealth
    → Option String
    → Bool
    → ProviderProbeManager × ProviderHealth
unfolding observe_named trim
observe m now provider fallback reporter probe =
    if trim provider == ""
    then (m, fallback)
    else observe_named m now (trim provider) fallback reporter probe

-- The first locked part of runProbe.
unfoldable pub begin_probe : String → ProviderProbeManager → ProviderProbeManager
begin_probe provider m =
    let s = m.states provider in
    if is_some_reporter s.reporter
    then with_state provider (record s { queued = false; inflight = true })
        (record m { probing = provider ∷ m.probing })
    else with_state provider (record s { queued = false }) m

abbrev pub completed_health : String → ℕ → ProviderHealth → ProviderHealth
completed_health provider now h = record h {
  provider = if h.provider == "" then provider else h.provider;
  observed_at = if ltb 0 h.observed_at then h.observed_at else now;
}

-- The second locked part, with the answer of the reporter.
unfoldable pub finish_probe :
    ℕ → String → ProviderHealth → ProviderProbeManager → ProviderProbeManager
unfolding schedule_for
finish_probe now provider answer m =
    let health = completed_health provider now answer in
    with_state provider
      (record (m.states provider) {
        cached = some health;
        inflight = false;
        queued = false;
        refresh_after = delayed now (schedule_for m.config health).0;
        cooldown_until = delayed now (schedule_for m.config health).1;
      })
      m

-- A call of Observe at a time, or what a worker does next.
pub data Step : ℕ → ProviderProbeManager → ProviderProbeManager → Type 0 where
  observes :
      (now : ℕ) (m : ProviderProbeManager) (provider : String) (fallback : ProviderHealth)
      (reporter : Option String) (probe : Bool)
      → Step now m (observe m now provider fallback reporter probe).0
  takes :
      (now : ℕ) (m : ProviderProbeManager) (provider : String) (rest : List String)
      → m.queue ≡ provider ∷ rest
      → Step now m (record m { queue = rest; taken = provider ∷ m.taken })
  begins :
      (now : ℕ) (m : ProviderProbeManager) (xs : List String) (provider : String) (ys : List String)
      → m.taken ≡ xs ++ provider ∷ ys
      → Step now m (begin_probe provider (record m { taken = xs ++ ys }))
  finishes :
      (now : ℕ) (m : ProviderProbeManager) (xs : List String) (provider : String) (ys : List String)
      (answer : ProviderHealth)
      → m.probing ≡ xs ++ provider ∷ ys
      → Step now m (finish_probe now provider answer (record m { probing = xs ++ ys }))

-- Any number of steps, each before the given time.
pub data Before (limit : ℕ) (m : ProviderProbeManager) : ProviderProbeManager → Type 0 where
  here : Before limit m m
  next :
      {now : ℕ} {n o : ProviderProbeManager}
      → Before limit m n
      → Step now n o
      → ltb now limit ≡ true
      → Before limit m o

pub data Reach (m : ProviderProbeManager) : ProviderProbeManager → Type 0 where
  here : Reach m m
  next : {now : ℕ} {n o : ProviderProbeManager} → Reach m n → Step now n o → Reach m o

-- ===== src/Runtime/Probes/Quiet.antt =====
-- After a probe, its provider is left alone until the time that the answer asks for.
use sourcevcode_orchestrator.Prelude.{
  ℕ, ◌+◌, ◌<◌, String, List, [], ◌∷◌, ◌++◌, Option, Bool, true, false, ◌≡◌, refl, sym, subst, ◌∙◌,
  arith, inl, inr, Bool-cases, if_cases, ◌==◌, eq_iff, eq_self, ltb, trim,
}
use sourcevcode_orchestrator.Runtime.Probes.{
  ProviderProbeManager, ProviderProbeState, ProviderHealth, ProbeConfig, new_provider_probe_manager,
  observed_state, wants_probe, should_queue, observe_named, observe, begin_probe, finish_probe,
  schedule_for, completed_health, is_some_reporter, with_state, Step, Reach, Before,
}
use sourcevcode_orchestrator.Runtime.Probes.Single.{
  count, count-middle, AllSingle, Reach-AllSingle, Step-AllSingle,
}

-- Neither queued nor in flight, and not to be refreshed before the limit.
record IsQuiet (limit : ℕ) (p : String) (m : ProviderProbeManager) : Type 0 where
  unqueued : (m.states p).queued ≡ false
  idle : (m.states p).inflight ≡ false
  refreshed : (m.states p).refresh_after ≡ limit

module _ (limit : ℕ) (p : String) where
  write-IsQuiet :
      (m n : ProviderProbeManager) (q : String) (s : ProviderProbeState)
      → n.states ≡ m.states
      → ((q == p) ≡ true → (s.queued ≡ false) × (s.inflight ≡ false) × (s.refresh_after ≡ limit))
      → IsQuiet limit p m
      → IsQuiet limit p (with_state q s n)
  write-IsQuiet m n q s same here h = elim (Bool-cases (q == p)) [
    | inl e ↦
        let (a, b, c) = here e in record { unqueued = rw e a; idle = rw e b; refreshed = rw e c }
    | inr e ↦ record {
      unqueued = rw (e, same) h.unqueued;
      idle = rw (e, same) h.idle;
      refreshed = rw (e, same) h.refreshed;
    }
  ]

  -- At its own provider a write of Observe keeps the three fields.
  kept :
      (m : ProviderProbeManager) (q : String)
      → IsQuiet limit p m
      → (q == p) ≡ true
      → ((m.states q).queued ≡ false)
        × ((m.states q).inflight ≡ false)
        × ((m.states q).refresh_after ≡ limit)
  kept m q h e =
      subst
        (λ k.
          ((m.states k).queued ≡ false)
          × ((m.states k).inflight ≡ false)
          × ((m.states k).refresh_after ≡ limit))
        (sym ((eq_iff q p).0 e)) (h.unqueued, h.idle, h.refreshed)

  observe_named-IsQuiet :
      (m : ProviderProbeManager) (now : ℕ) (q : String) (fallback : ProviderHealth)
      (reporter : Option String) (probe : Bool)
      → 0 < limit
      → ltb now limit ≡ true
      → IsQuiet limit p m
      → IsQuiet limit p (observe_named m now q fallback reporter probe).0
  unfolding observe_named should_queue
  observe_named-IsQuiet m now q fallback reporter probe z early h =
      let s = observed_state q fallback reporter (m.states q) in
      if_cases (λ (r : ProviderProbeManager × ProviderHealth). IsQuiet limit p r.0)
        (wants_probe m now probe s)
        (λ t.
          write-IsQuiet m (record m { queue = m.queue ++ (q ∷ []) }) q (record s { queued = true })
            refl (λ e. let (a, b, c) = kept m q h e in absurd (ground (arith, t, early))) h)
        (λ _. write-IsQuiet m m q s refl (kept m q h) h)

  begin-IsQuiet :
      (m : ProviderProbeManager) (xs : List String) (q : String) (ys : List String)
      → (q == p) ≡ false
      → IsQuiet limit p m
      → IsQuiet limit p (begin_probe q (record m { taken = xs ++ ys }))
  unfolding begin_probe
  begin-IsQuiet m xs q ys other h =
      if_cases (IsQuiet limit p) (is_some_reporter (m.states q).reporter)
        (λ _.
          write-IsQuiet m (record m { taken = xs ++ ys; probing = q ∷ m.probing }) q
            (record (m.states q) { queued = false; inflight = true }) refl
            (λ e. absurd (cc (sym e ∙ other))) h)
        (λ _.
          write-IsQuiet m (record m { taken = xs ++ ys }) q (record (m.states q) { queued = false })
            refl (λ e. absurd (cc (sym e ∙ other))) h)

  -- A provider that is neither queued nor in flight is not the next one of a worker.
  not_taken :
      (m : ProviderProbeManager) (xs : List String) (q : String) (ys : List String)
      → AllSingle m
      → IsQuiet limit p m
      → m.taken ≡ xs ++ q ∷ ys
      → (q == p) ≡ false
  not_taken m xs q ys a h e =
      ground (arith, h.unqueued, (a p).waits, count-middle p q xs ys m.taken e)

  not_probed :
      (m : ProviderProbeManager) (xs : List String) (q : String) (ys : List String)
      → AllSingle m
      → IsQuiet limit p m
      → m.probing ≡ xs ++ q ∷ ys
      → (q == p) ≡ false
  not_probed m xs q ys a h e =
      ground (arith, h.idle, (a p).runs, count-middle p q xs ys m.probing e)

  Step-IsQuiet :
      {now : ℕ} {m n : ProviderProbeManager}
      → 0 < limit
      → ltb now limit ≡ true
      → Step now m n
      → AllSingle m
      → IsQuiet limit p m
      → IsQuiet limit p n
  unfolding observe finish_probe
  Step-IsQuiet z early (Step.observes now m provider fallback reporter probe) a h =
      if_cases (λ (r : ProviderProbeManager × ProviderHealth). IsQuiet limit p r.0)
        (trim provider == "") (λ _. h)
        (λ _. observe_named-IsQuiet m now (trim provider) fallback reporter probe z early h)
  Step-IsQuiet z early (Step.takes now m provider rest e) a h = record {
    unqueued = h.unqueued;
    idle = h.idle;
    refreshed = h.refreshed;
  }
  Step-IsQuiet z early (Step.begins now m xs q ys e) a h =
      begin-IsQuiet m xs q ys (not_taken m xs q ys a h e) h
  Step-IsQuiet z early (Step.finishes now m xs q ys answer e) a h =
      write-IsQuiet m (record m { probing = xs ++ ys }) q _ refl
        (λ f. absurd (cc (sym f ∙ not_probed m xs q ys a h e))) h

  Before-IsQuiet :
      {m n : ProviderProbeManager}
      → 0 < limit
      → AllSingle m
      → IsQuiet limit p m
      → Before limit m n
      → IsQuiet limit p n × AllSingle n
  Before-IsQuiet z a h Before.here = (h, a)
  Before-IsQuiet z a h (Before.next r st early) =
      let (h', a') = Before-IsQuiet z a h r in (Step-IsQuiet z early st a' h', Step-AllSingle st a')

-- When a probe of a provider ends, with whatever answer, no other probe of it is queued, begun or under
-- way at any time before the delay that the answer asks for has passed, whatever is observed meanwhile.
-- The delay is not zero.
pub finish_probe-quiet :
    (config : ProbeConfig) {m : ProviderProbeManager} (now : ℕ) (xs : List String) (p : String)
    (ys : List String) (answer : ProviderHealth) {o : ProviderProbeManager}
    → Reach (new_provider_probe_manager config) m
    → m.probing ≡ xs ++ p ∷ ys
    → 0 < (schedule_for m.config (completed_health p now answer)).0
    → Before
        (now + (schedule_for m.config (completed_health p now answer)).0)
        (finish_probe now p answer (record m { probing = xs ++ ys }))
        o
    → (count p o.queue + count p o.taken ≡ 0) × (count p o.probing ≡ 0)
unfolding finish_probe
finish_probe-quiet config {m} now xs p ys answer r e positive b =
    let delay = (schedule_for m.config (completed_health p now answer)).0 in
    let start = finish_probe now p answer (record m { probing = xs ++ ys }) in
    let a = Step-AllSingle (Step.finishes now m xs p ys answer e) (Reach-AllSingle config r) in
    let begun : IsQuiet (now + delay) p start = record {
      unqueued = rw (eq_self p) refl;
      idle = rw (eq_self p) refl;
      refreshed = rw (eq_self p) (ground arith);
    } in
    let (h, single) = Before-IsQuiet (now + delay) p (omega arith) a begun b in
    (ground (arith, h.unqueued, (single p).waits), ground (arith, h.idle, (single p).runs))

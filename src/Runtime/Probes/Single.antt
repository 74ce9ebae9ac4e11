-- ===== src/Runtime/Probes/Single.antt =====
-- At most one probe of a provider is on its way.
use sourcevcode_orchestrator.Prelude.{
  ℕ, ◌+◌, String, List, [], ◌∷◌, ◌++◌, Option, Bool, true, false, ◌&&◌, ◌||◌, ◌≡◌, refl, subst, ap,
  ◌∙◌, arith, inl, inr, Bool-cases, if_cases, ◌==◌, eq_iff, eq_self, trim,
}
use sourcevcode_orchestrator.Runtime.Probes.{
  ProviderProbeManager, ProviderProbeState, ProviderHealth, ProbeConfig, new_provider_probe_manager,
  observed_state, wants_probe, should_queue, observe_named, observe, begin_probe, finish_probe,
  is_some_reporter, with_state, Step, Reach,
}

abbrev pub one_if : Bool → ℕ
one_if true = 1
one_if false = 0

-- How often a text stands in a list.
pub count : String → List String → ℕ
count k [] = 0
count k (x ∷ xs) = one_if (x == k) + count k xs

count-append : (k : String) (xs ys : List String) → count k (xs ++ ys) ≡ count k xs + count k ys
unfolding count
count-append k [] ys = omega arith
count-append k (x ∷ xs) ys = omega (arith, count-append k xs ys)

pub count-middle :
    (k p : String) (xs ys l : List String)
    → l ≡ xs ++ p ∷ ys
    → count k l ≡ one_if (p == k) + count k (xs ++ ys)
unfolding count
count-middle k p xs ys l e =
    omega (arith, ap (count k) e, count-append k xs (p ∷ ys), count-append k xs ys)

-- The flags of a provider say how often it stands in the queue or was taken from it, and how often it is
-- being probed.
pub record IsSingle (m : ProviderProbeManager) (k : String) : Type 0 where
  pub waits : count k m.queue + count k m.taken ≡ one_if (m.states k).queued
  pub runs : count k m.probing ≡ one_if (m.states k).inflight
  pub apart : ((m.states k).queued && (m.states k).inflight) ≡ false

abbrev pub AllSingle : ProviderProbeManager → Type 0
AllSingle m = (k : String) → IsSingle m k

-- A write of the state of one provider, with the lists changed for no other.
with_state-AllSingle :
    (m n : ProviderProbeManager) (p : String) (s : ProviderProbeState)
    → n.states ≡ m.states
    → ((k : String)
        → (p == k) ≡ false
        → (count k n.queue + count k n.taken ≡ count k m.queue + count k m.taken)
          × (count k n.probing ≡ count k m.probing))
    → count p n.queue + count p n.taken ≡ one_if s.queued
    → count p n.probing ≡ one_if s.inflight
    → (s.queued && s.inflight) ≡ false
    → AllSingle m
    → AllSingle (with_state p s n)
with_state-AllSingle m n p s same others waits runs apart h k = elim (Bool-cases (p == k)) [
  | inl e ↦ subst (IsSingle (with_state p s n)) ((eq_iff p k).0 e) (record {
    waits = rw (eq_self p) waits;
    runs = rw (eq_self p) runs;
    apart = rw (eq_self p) apart;
  })
  | inr e ↦ record {
    waits = rw (e, same) ((others k e).0 ∙ (h k).waits);
    runs = rw (e, same) ((others k e).1 ∙ (h k).runs);
    apart = rw (e, same) (h k).apart;
  }
]

observe_named-AllSingle :
    (m : ProviderProbeManager) (now : ℕ) (p : String) (fallback : ProviderHealth)
    (reporter : Option String) (probe : Bool)
    → AllSingle m
    → AllSingle (observe_named m now p fallback reporter probe).0
unfolding observe_named should_queue count
observe_named-AllSingle m now p fallback reporter probe h =
    let s = observed_state p fallback reporter (m.states p) in
    if_cases (λ (q : ProviderProbeManager × ProviderHealth). AllSingle q.0)
      (wants_probe m now probe s)
      (λ t.
        let idle : ((m.states p).queued || (m.states p).inflight) ≡ false = ground (arith, t) in
        with_state-AllSingle m (record m { queue = m.queue ++ (p ∷ []) }) p
          (record s { queued = true }) refl
          (λ k e. (omega (arith, count-append k m.queue (p ∷ []), ap one_if e), refl))
          (ground (arith, idle, (h p).waits, count-append p m.queue (p ∷ []), eq_self p)) (h p).runs
          (ground (arith, idle)) h)
      (λ _.
        with_state-AllSingle m m p s refl (λ k e. (refl, refl)) (h p).waits (h p).runs (h p).apart
          h)

begin-AllSingle :
    (m : ProviderProbeManager) (xs : List String) (p : String) (ys : List String)
    → m.taken ≡ xs ++ p ∷ ys
    → AllSingle m
    → AllSingle (begin_probe p (record m { taken = xs ++ ys }))
unfolding begin_probe count
begin-AllSingle m xs p ys e h =
    let n : ProviderProbeManager = record m { taken = xs ++ ys } in
    let s = m.states p in
    let here : s.queued ≡ true =
      ground (arith, (h p).waits, count-middle p p xs ys m.taken e, eq_self p) in
    let left : count p m.queue + count p n.taken ≡ 0 =
      ground (arith, here, (h p).waits, count-middle p p xs ys m.taken e, eq_self p) in
    let idle : s.inflight ≡ false = ground (arith, here, (h p).apart) in
    if_cases AllSingle (is_some_reporter s.reporter)
      (λ _.
        with_state-AllSingle m (record n { probing = p ∷ m.probing }) p
          (record s { queued = false; inflight = true }) refl
          (λ k f. (
            omega (arith, count-middle k p xs ys m.taken e, ap one_if f),
            omega (arith, ap one_if f),
          ))
          left (ground (arith, idle, (h p).runs, eq_self p)) refl h)
      (λ _.
        with_state-AllSingle m n p (record s { queued = false }) refl
          (λ k f. (omega (arith, count-middle k p xs ys m.taken e, ap one_if f), refl)) left
          (h p).runs refl h)

finish-AllSingle :
    (m : ProviderProbeManager) (now : ℕ) (xs : List String) (p : String) (ys : List String)
    (answer : ProviderHealth)
    → m.probing ≡ xs ++ p ∷ ys
    → AllSingle m
    → AllSingle (finish_probe now p answer (record m { probing = xs ++ ys }))
unfolding finish_probe count
finish-AllSingle m now xs p ys answer e h =
    let n : ProviderProbeManager = record m { probing = xs ++ ys } in
    let s = m.states p in
    let here : s.inflight ≡ true =
      ground (arith, (h p).runs, count-middle p p xs ys m.probing e, eq_self p) in
    let idle : s.queued ≡ false = ground (arith, here, (h p).apart) in
    with_state-AllSingle m n p _ refl
      (λ k f. (refl, omega (arith, count-middle k p xs ys m.probing e, ap one_if f)))
      (ground (arith, idle, (h p).waits))
      (ground (arith, here, (h p).runs, count-middle p p xs ys m.probing e, eq_self p)) refl h

pub Step-AllSingle :
    {now : ℕ} {m n : ProviderProbeManager} → Step now m n → AllSingle m → AllSingle n
unfolding observe count
Step-AllSingle (Step.observes now m provider fallback reporter probe) h =
    if_cases (λ (q : ProviderProbeManager × ProviderHealth). AllSingle q.0) (trim provider == "")
      (λ _. h) (λ _. observe_named-AllSingle m now (trim provider) fallback reporter probe h)
Step-AllSingle (Step.takes now m provider rest e) h = λ k. record {
  waits = omega (arith, (h k).waits, ap (count k) e);
  runs = (h k).runs;
  apart = (h k).apart;
}
Step-AllSingle (Step.begins now m xs p ys e) h = begin-AllSingle m xs p ys e h
Step-AllSingle (Step.finishes now m xs p ys answer e) h = finish-AllSingle m now xs p ys answer e h

-- Whatever is observed, and in whatever order the workers go on: a provider is marked as queued exactly
-- when it stands in the queue or in the hands of one worker, once, and as in flight exactly when it is
-- being probed, once; and never as both. So at most one probe of a provider is on its way.
pub Reach-AllSingle :
    (config : ProbeConfig) {m : ProviderProbeManager}
    → Reach (new_provider_probe_manager config) m
    → (k : String) → IsSingle m k
unfolding new_provider_probe_manager count
Reach-AllSingle config Reach.here = λ k. record { waits = refl; runs = refl; apart = refl }
Reach-AllSingle config (Reach.next r st) = Step-AllSingle st (Reach-AllSingle config r)

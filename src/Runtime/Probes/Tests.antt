-- ===== src/Runtime/Probes/Tests.antt =====
-- A concrete run of the manager: one provider is observed and probed.
use sourcevcode_orchestrator.Prelude.{◌+◌, ◌<◌, [], ◌∷◌, some, true, ◌≡◌, refl, arith}
use sourcevcode_orchestrator.Runtime.Probes.{
  ProviderProbeManager, ProviderHealth, ProbeConfig, new_provider_probe_manager, no_health, observe,
  begin_probe, finish_probe, schedule_for, completed_health, Step, Reach, Before,
}
use sourcevcode_orchestrator.Runtime.Probes.Single.{count, IsSingle, Reach-AllSingle}
use sourcevcode_orchestrator.Runtime.Probes.Quiet.{finish_probe-quiet}

abbrev config : ProbeConfig
config = record { ttl = 30; failure_cooldown = 15; rate_limit_cooldown = 45; queue_size = 64 }

abbrev fresh : ProviderProbeManager
fresh = new_provider_probe_manager config

abbrev observed : ProviderProbeManager
observed = (observe fresh 5 " openai " no_health (some "openai") true).0

its_queue : observed.queue ≡ "openai" ∷ []
unfolding observe new_provider_probe_manager
its_queue = refl

abbrev taken : ProviderProbeManager
taken = record observed { queue = []; taken = "openai" ∷ observed.taken }

its_taken : taken.taken ≡ "openai" ∷ []
unfolding observe new_provider_probe_manager
its_taken = refl

abbrev begun : ProviderProbeManager
begun = begin_probe "openai" (record taken { taken = [] })

its_probing : begun.probing ≡ "openai" ∷ []
unfolding begin_probe observe new_provider_probe_manager
its_probing = refl

reached : Reach fresh begun
reached =
    Reach.next
      (Reach.next
        (Reach.next Reach.here (Step.observes 5 fresh " openai " no_health (some "openai") true))
        (Step.takes 6 observed "openai" [] its_queue))
      (Step.begins 7 taken [] "openai" [] its_taken)

Reach-AllSingle_example : IsSingle begun "openai"
Reach-AllSingle_example = Reach-AllSingle config reached "openai"

abbrev answer : ProviderHealth
answer = record no_health { status = "Ready"; available = true }

its_delay : (schedule_for begun.config (completed_health "openai" 10 answer)).0 ≡ 30
unfolding schedule_for begin_probe observe new_provider_probe_manager
its_delay = refl

is_delayed : 0 < (schedule_for begun.config (completed_health "openai" 10 answer)).0
is_delayed = omega (arith, its_delay)

abbrev ended : ProviderProbeManager
ended = finish_probe 10 "openai" answer (record begun { probing = [] })

abbrev asked_again : ProviderProbeManager
asked_again = (observe ended 20 "openai" no_health (some "openai") true).0

early : Before 40 ended asked_again
early =
    Before.next Before.here (Step.observes 20 ended "openai" no_health (some "openai") true) refl

finish_probe-quiet_example :
    (count "openai" asked_again.queue + count "openai" asked_again.taken ≡ 0)
    × (count "openai" asked_again.probing ≡ 0)
unfolding schedule_for begin_probe observe new_provider_probe_manager
finish_probe-quiet_example =
    finish_probe-quiet config 10 [] "openai" [] answer reached its_probing is_delayed early

-- ===== src/Runtime/Registry/Tests.antt =====
-- A concrete registry of one agent.
use sourcevcode_orchestrator.Prelude.{ℕ, [], ◌∷◌, none, ◌≡◌, refl, map}
use sourcevcode_orchestrator.Runtime.Registry.{
  AgentInfo, AgentRuntimeState, Registry, new_registry, register_agent, set_runtime_state,
  registered_state, agent_infos,
}
use sourcevcode_orchestrator.Runtime.Registry.Sound.{
  Step, Reach, SoundRegistry, Reach-SoundRegistry,
}

abbrev coder : AgentInfo
coder = record {
  id = "coder";
  type = "api";
  provider = "openai";
  model_name = "m";
  capabilities = [];
  status = "ready";
}

abbrev first : Registry ℕ
first = new_registry {Score = ℕ}

abbrev registered : Registry ℕ
registered = (register_agent 0 1 5 coder first).0

abbrev busy : AgentRuntimeState ℕ
busy = record (registered_state 0 1 5 coder none) { status = "busy" }

its_status :
    map (λ (a : AgentInfo). a.status) (agent_infos (set_runtime_state 6 busy registered))
    ≡ "busy" ∷ []
unfolding agent_infos set_runtime_state register_agent registered_state
its_status = refl

Reach-SoundRegistry_example : SoundRegistry (set_runtime_state 6 busy registered)
Reach-SoundRegistry_example = Reach-SoundRegistry (
    Reach.then_step (Reach.then_step Reach.empty (Step.registers 0 1 5 coder first))
      (Step.sets 6 busy registered))

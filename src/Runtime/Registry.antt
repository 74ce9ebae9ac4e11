-- ===== src/Runtime/Registry.antt =====
-- go-core/internal/kernel/registry.go. An agent is its Info(), a listener its name; a call answers with the
-- listeners that are told. `Score` stands for float64, of which nothing is computed here, and 0 for the
-- zero time. The ids of agents are unique, and so is what the sort of a list of them yields.
pub mod Sound
mod Tests
use Prim.Native.String.{compare as str_compare}
use package.text.Mathlib.Text.{is_lt}
use sourcevcode_orchestrator.Prelude.{
  ℕ, String, List, [], ◌∷◌, ◌++◌, map, Option, none, some, Bool, if◌then◌else◌, ◌==◌, ltb, lookup,
  insert, sort_by,
}
use sourcevcode_orchestrator.Prelude.Int.{ℤ, pos}
use sourcevcode_orchestrator.Domain.Json.{Fields}

pub record AgentInfo : Type 0 where
  pub id : String
  pub type : String
  pub provider : String
  pub model_name : String
  pub capabilities : List String
  pub status : String

pub record ModuleInfo : Type 0 where
  pub name : String
  pub kind : String
  pub metadata : Fields

pub record AgentRuntimeState (Score : Type 0) : Type 0 where
  pub agent_id : String
  pub provider : String
  pub status : String
  pub priority_score : Score
  pub in_flight : ℤ
  pub agent_slot_usage : Score
  pub model_slot_usage : Score
  pub global_slot_usage : Score
  pub error_rate : Score
  pub disabled_reason : String
  pub last_error : String
  pub last_probe_status : String
  pub last_probe_error : String
  pub last_probe_latency_ms : ℤ
  pub suppressed_until : Option ℕ
  pub updated_at : ℕ

pub record Registry (Score : Type 0) : Type 0 where
  pub agents : List (String × AgentInfo)
  pub modules : List (String × ModuleInfo)
  pub runtime_states : List (String × AgentRuntimeState Score)
  pub agent_registrations : List String

abbrev pub text_less : String → String → Bool
text_less s t = is_lt (str_compare s t)

abbrev pub if_blank : String → String → String
if_blank text fallback = if text == "" then fallback else text

module _ {Score : Type 0} where
  abbrev pub new_registry : Registry Score
  new_registry = record { agents = []; modules = []; runtime_states = []; agent_registrations = [] }

  -- The state of an agent that registers, from its state so far. `zero` and `one` are 0 and 1.
  unfoldable pub registered_state :
      Score → Score → ℕ → AgentInfo → Option (AgentRuntimeState Score) → AgentRuntimeState Score
  registered_state zero one now info none = record {
    agent_id = info.id;
    provider = info.provider;
    status = info.status;
    priority_score = one;
    in_flight = pos 0;
    agent_slot_usage = zero;
    model_slot_usage = zero;
    global_slot_usage = zero;
    error_rate = zero;
    disabled_reason = "";
    last_error = "";
    last_probe_status = "";
    last_probe_error = "";
    last_probe_latency_ms = pos 0;
    suppressed_until = none;
    updated_at = now;
  }
  registered_state zero one now info (some state) = record state {
    provider = info.provider;
    status = if_blank state.status info.status;
    updated_at = now;
  }

  unfoldable pub register_agent :
      Score → Score → ℕ → AgentInfo → Registry Score → Registry Score × List String
  unfolding registered_state insert lookup
  register_agent zero one now info r = (
    record r {
      agents = insert info.id info r.agents;
      runtime_states =
          insert info.id (registered_state zero one now info (lookup info.id r.runtime_states))
            r.runtime_states;
    },
    r.agent_registrations,
  )

  -- A listener that is nil is ignored.
  unfoldable pub on_agent_registered : Option String → Registry Score → Registry Score
  on_agent_registered none r = r
  on_agent_registered (some listener) r = record r {
    agent_registrations = r.agent_registrations ++ (listener ∷ []);
  }

  unfoldable pub register_module : ModuleInfo → Registry Score → Registry Score
  unfolding insert
  register_module m r = record r { modules = insert m.name m r.modules }

  unfoldable pub agents_of : Registry Score → List AgentInfo
  unfolding sort_by
  agents_of r =
      sort_by (λ (a : AgentInfo) (b : AgentInfo). text_less a.id b.id)
        (map (λ (e : String × AgentInfo). e.1) r.agents)

  unfoldable pub agent_by_id : String → Registry Score → Option AgentInfo
  unfolding lookup
  agent_by_id id r = lookup id r.agents

  -- The status that is shown: that of the runtime state, when it has one.
  unfoldable pub shown : Registry Score → AgentInfo → AgentInfo
  unfolding lookup
  shown r info = elim (lookup info.id r.runtime_states) [
    | none ↦ info
    | some state ↦ record info { status = if_blank state.status info.status }
  ]

  unfoldable pub agent_infos : Registry Score → List AgentInfo
  unfolding shown sort_by
  agent_infos r =
      sort_by (λ (a : AgentInfo) (b : AgentInfo). text_less a.id b.id)
        (map (λ (e : String × AgentInfo). shown r e.1) r.agents)

  -- What is stored of a state, after the state that was stored before.
  unfoldable pub merged_state :
      ℕ → AgentRuntimeState Score → Option (AgentRuntimeState Score) → AgentRuntimeState Score
  merged_state now state existing =
      let dated : AgentRuntimeState Score = record state {
        updated_at = if ltb 0 state.updated_at then state.updated_at else now;
      } in
      elim existing [
        | none ↦ dated
        | some old ↦ record dated {
          provider = if_blank state.provider old.provider;
          status = if_blank state.status old.status;
        }
      ]

  unfoldable pub set_runtime_state : ℕ → AgentRuntimeState Score → Registry Score → Registry Score
  unfolding merged_state insert lookup
  set_runtime_state now state r = if state.agent_id == "" then r else record r {
    runtime_states =
        insert state.agent_id (merged_state now state (lookup state.agent_id r.runtime_states))
          r.runtime_states;
  }

  unfoldable pub runtime_state : String → Registry Score → Option (AgentRuntimeState Score)
  unfolding lookup
  runtime_state id r = lookup id r.runtime_states

  unfoldable pub runtime_states_of : Registry Score → List (AgentRuntimeState Score)
  unfolding sort_by
  runtime_states_of r =
      sort_by
        (λ (a : AgentRuntimeState Score) (b : AgentRuntimeState Score).
          text_less a.agent_id b.agent_id)
        (map (λ (e : String × AgentRuntimeState Score). e.1) r.runtime_states)

  unfoldable pub module_infos : Registry Score → List ModuleInfo
  unfolding sort_by
  module_infos r =
      sort_by (λ (a : ModuleInfo) (b : ModuleInfo). text_less a.name b.name)
        (map (λ (e : String × ModuleInfo). e.1) r.modules)

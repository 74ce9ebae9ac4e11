-- ===== src/Runtime/Registry/Sound.antt =====
-- The agents of the registry and their runtime states.
use sourcevcode_orchestrator.Prelude.{
  ℕ, String, List, Option, none, some, true, ◌≡◌, refl, sym, ap, ◌∙◌, inl, inr, Bool-cases, arith,
  if_cases, if◌then◌else◌, ◌==◌, eq_iff, lookup, insert, lookup-insert, some_inj, is_some,
}
use sourcevcode_orchestrator.Runtime.Registry.{
  AgentInfo, ModuleInfo, AgentRuntimeState, Registry, new_registry, registered_state,
  register_agent, on_agent_registered, register_module, merged_state, set_runtime_state,
}

-- An entry that is written under a key of its own leaves the entries under their keys.
insert-keyed {ℓ} :
    {V : Type ℓ} (name : V → String) (entries : List (String × V)) (v : V) (key : String)
    → name v ≡ key
    → ((id : String) (w : V) → lookup id entries ≡ some w → name w ≡ id)
    → (id : String) (w : V) → lookup id (insert key v entries) ≡ some w
    → name w ≡ id
insert-keyed name entries v key e h id w found =
    let found' = sym (lookup-insert key id v entries) ∙ found in
    elim (Bool-cases (key == id)) [
      | inl t ↦ ap name (sym (some_inj (rw t at found'))) ∙ e ∙ (eq_iff key id).0 t
      | inr f ↦ h id w (rw f at found')
    ]

is_some-insert {ℓ} :
    {V : Type ℓ} (entries : List (String × V)) (v : V) (key id : String)
    → is_some (lookup id (insert key v entries))
      ≡ (if key == id then true else is_some (lookup id entries))
is_some-insert entries v key id = rw (lookup-insert key id v entries) (
    if_cases
      (λ (o : Option _). is_some o ≡ (if key == id then true else is_some (lookup id entries)))
      (key == id) (λ t. rw t refl) (λ f. rw f refl))

module _ {Score : Type 0} where
  pub data Step : Registry Score → Registry Score → Type 0 where
    registers :
        (zero one : Score) (now : ℕ) (info : AgentInfo) (r : Registry Score)
        → Step r (register_agent zero one now info r).0
    listens :
        (listener : Option String) (r : Registry Score) → Step r (on_agent_registered listener r)
    adds_module : (m : ModuleInfo) (r : Registry Score) → Step r (register_module m r)
    sets :
        (now : ℕ) (state : AgentRuntimeState Score) (r : Registry Score)
        → Step r (set_runtime_state now state r)

  pub data Reach : Registry Score → Type 0 where
    empty : Reach new_registry
    then_step : {r s : Registry Score} → Reach r → Step r s → Reach s

  pub record SoundRegistry (r : Registry Score) : Type 0 where
    pub agents_keyed : (id : String) (a : AgentInfo) → lookup id r.agents ≡ some a → a.id ≡ id
    pub states_keyed :
        (id : String) (s : AgentRuntimeState Score)
        → lookup id r.runtime_states ≡ some s
        → s.agent_id ≡ id
    pub covered :
        (id : String)
        → is_some (lookup id r.agents) ≡ true
        → is_some (lookup id r.runtime_states) ≡ true

  registered_state-named :
      (zero one : Score) (now : ℕ) (info : AgentInfo) (o : Option (AgentRuntimeState Score))
      → ((s : AgentRuntimeState Score) → o ≡ some s → s.agent_id ≡ info.id)
      → (registered_state zero one now info o).agent_id ≡ info.id
  unfolding registered_state
  registered_state-named zero one now info none h = refl
  registered_state-named zero one now info (some s) h = h s refl

  merged_state-named :
      (now : ℕ) (s : AgentRuntimeState Score) (o : Option (AgentRuntimeState Score))
      → (merged_state now s o).agent_id ≡ s.agent_id
  unfolding merged_state
  merged_state-named now s none = refl
  merged_state-named now s (some old) = refl

  register_agent-SoundRegistry :
      (zero one : Score) (now : ℕ) (info : AgentInfo) (r : Registry Score)
      → SoundRegistry r
      → SoundRegistry (register_agent zero one now info r).0
  unfolding register_agent
  register_agent-SoundRegistry zero one now info r h =
      let state = registered_state zero one now info (lookup info.id r.runtime_states) in
      record {
        agents_keyed =
            insert-keyed (λ (a : AgentInfo). a.id) r.agents info info.id refl h.agents_keyed;
        states_keyed =
            insert-keyed (λ (s : AgentRuntimeState Score). s.agent_id) r.runtime_states state
              info.id
              (registered_state-named zero one now info (lookup info.id r.runtime_states)
                (h.states_keyed info.id))
              h.states_keyed;
        covered = λ id e. ground (
          arith,
          e,
          is_some-insert r.agents info info.id id,
          is_some-insert r.runtime_states state info.id id,
          h.covered id,
        );
      }

  set_runtime_state-SoundRegistry :
      (now : ℕ) (s : AgentRuntimeState Score) (r : Registry Score)
      → SoundRegistry r
      → SoundRegistry (set_runtime_state now s r)
  unfolding set_runtime_state
  set_runtime_state-SoundRegistry now s r h =
      let stored = merged_state now s (lookup s.agent_id r.runtime_states) in
      if_cases SoundRegistry (s.agent_id == "") (λ _. h)
        (λ _. record {
          agents_keyed = h.agents_keyed;
          states_keyed =
              insert-keyed (λ (s : AgentRuntimeState Score). s.agent_id) r.runtime_states stored
                s.agent_id (merged_state-named now s (lookup s.agent_id r.runtime_states))
                h.states_keyed;
          covered = λ id e.
              ground (arith, e, is_some-insert r.runtime_states stored s.agent_id id, h.covered id);
        })

  Step-SoundRegistry : {r s : Registry Score} → Step r s → SoundRegistry r → SoundRegistry s
  unfolding on_agent_registered register_module
  Step-SoundRegistry (registers zero one now info r) h =
      register_agent-SoundRegistry zero one now info r h
  Step-SoundRegistry (listens none r) h = h
  Step-SoundRegistry (listens (some l) r) h = record {
    agents_keyed = h.agents_keyed;
    states_keyed = h.states_keyed;
    covered = h.covered;
  }
  Step-SoundRegistry (adds_module m r) h = record {
    agents_keyed = h.agents_keyed;
    states_keyed = h.states_keyed;
    covered = h.covered;
  }
  Step-SoundRegistry (sets now s r) h = set_runtime_state-SoundRegistry now s r h

  -- Whatever was registered and set, every agent stands under its id and has a runtime state, and every
  -- runtime state stands under the id of its agent.
  pub Reach-SoundRegistry : {r : Registry Score} → Reach r → SoundRegistry r
  unfolding lookup
  Reach-SoundRegistry empty = record {
    agents_keyed = λ id a e. cc e;
    states_keyed = λ id s e. cc e;
    covered = λ id e. e;
  }
  Reach-SoundRegistry (then_step h s) = Step-SoundRegistry s (Reach-SoundRegistry h)

-- ===== src/Delivery/Supervisor/Records.antt =====
-- The supervisor's table of records: what a write leaves to be read.
use sourcevcode_orchestrator.Prelude.{
  String, Option, none, some, ◌≡◌, ap, sym, subst, ◌∙◌, ◌≢◌, arith, lookup, insert, lookup-insert,
  some_inj, Option-cases, inl, inr, str_cases, eq_self, eq_iff,
}
use sourcevcode_orchestrator.Delivery.Interface.{Bus}
use sourcevcode_orchestrator.Delivery.Record.{DeliveryRecord}
use sourcevcode_orchestrator.Delivery.Supervisor.{Supervisor, modify}

abbrev pub record_of : {bus : Bus} → Supervisor bus → String → Option DeliveryRecord
record_of s id = lookup id s.records

module _ {bus : Bus} (id : String) (f : DeliveryRecord → DeliveryRecord) (s : Supervisor bus) where
  pub modify-missing : record_of s id ≡ none → modify id f s ≡ s
  unfolding modify
  modify-missing e = rw (e, modify)

  pub modify-found :
      (r : DeliveryRecord) → record_of s id ≡ some r → record_of (modify id f s) id ≡ some (f r)
  unfolding modify
  modify-found r e = rw (e, modify) (rw lookup-insert (rw eq_self))

  pub modify-other : (j : String) → id ≢ j → record_of (modify id f s) j ≡ record_of s j
  unfolding modify
  modify-other j n = elim (Option-cases (record_of s id)) [
    | inl e ↦ rw (e, modify)
    | inr (r, e) ↦ rw (e, modify) (lookup-insert id j (f r) s.records ∙ ground (arith, eq_iff id j))
  ]

  pub state-modify : (modify id f s).state ≡ s.state
  unfolding modify
  state-modify = ground arith

  pub ack_timeout-modify : (modify id f s).ack_timeout ≡ s.ack_timeout
  unfolding modify
  ack_timeout-modify = ground arith

-- The same, where the key that is written is known by an equation.
module _ {bus : Bus} {k id : String} (f : DeliveryRecord → DeliveryRecord) (s : Supervisor bus)
    (same : k ≡ id) where
  pub modify-found_at :
      (r : DeliveryRecord) → record_of s id ≡ some r → record_of (modify k f s) id ≡ some (f r)
  modify-found_at r =
      subst (λ i. record_of s i ≡ some r → record_of (modify k f s) i ≡ some (f r)) same
        (modify-found k f s r)

  pub modify-other_at : (j : String) → id ≢ j → record_of (modify k f s) j ≡ record_of s j
  modify-other_at j n = modify-other k f s j (λ e. n (sym same ∙ e))

-- Every record of the table, with its key, has the property.
abbrev pub EachRecord : {bus : Bus} → (String → DeliveryRecord → Type 0) → Supervisor bus → Type 0
EachRecord P s = (id : String) (r : DeliveryRecord) → record_of s id ≡ some r → P id r

module _ {bus : Bus} (P : String → DeliveryRecord → Type 0) where
  -- What `modify` reads at its own key.
  modify_self :
      (id : String) (f : DeliveryRecord → DeliveryRecord) (s : Supervisor bus) (r : DeliveryRecord)
      → record_of (modify id f s) id ≡ some r
      → (q : DeliveryRecord) × (record_of s id ≡ some q) × (f q ≡ r)
  modify_self id f s r e = elim (Option-cases (record_of s id)) [
    | inl p ↦
        absurd (cc (e, p, ap (λ (t : Supervisor bus). record_of t id) (modify-missing id f s p)))
    | inr (q, p) ↦ (q, p, some_inj (sym (modify-found id f s q p) ∙ e))
  ]

  pub EachRecord-modify :
      (id : String) (f : DeliveryRecord → DeliveryRecord) (s : Supervisor bus)
      → ((r : DeliveryRecord) → record_of s id ≡ some r → P id r → P id (f r))
      → EachRecord P s
      → EachRecord P (modify id f s)
  EachRecord-modify id f s keep h j r e = elim (str_cases id j) [
    | inl same ↦
        let (q, p, fq) =
          modify_self id f s r (subst (λ k. record_of (modify id f s) k ≡ some r) (sym same) e) in
        subst (λ k. P k r) same (subst (P id) fq (keep q p (h id q p)))
    | inr n ↦ h j r (sym (modify-other id f s j n) ∙ e)
  ]

  pub EachRecord-insert :
      (id : String) (n : DeliveryRecord) (s : Supervisor bus) (b : bus.State)
      → P id n
      → EachRecord P s
      → EachRecord P (record s { state = b; records = insert id n s.records })
  EachRecord-insert id n s b pn h j r e = elim (str_cases id j) [
    | inl same ↦
        subst (λ k. P k r) same
          (let found : some n ≡ some r =
              ground (arith, lookup-insert id j n s.records, eq_iff id j) in
            subst (P id) (some_inj found) pn)
    | inr other ↦ h j r (ground (arith, lookup-insert id j n s.records, eq_iff id j))
  ]

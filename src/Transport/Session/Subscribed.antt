-- ===== src/Transport/Session/Subscribed.antt =====
-- The ids of subscriptions.
use Prim.Native.String as Str
use sourcevcode_orchestrator.Prelude.{
  ℕ, String, List, [], ◌∷◌, some, true, false, ◌≡◌, refl, sym, ap, ◌∙◌, length, lookup,
  lookup-insert, trim, ◌==◌, eq_self, if_cases, decimal,
}
use sourcevcode_orchestrator.Transport.Session.{
  Session, SubscriptionBinding, Result, completed_binding, register_subscription,
  subscription_id_from_data,
}

subscription_id-same :
    (topic : String) (f g : List (String × String))
    → length f ≡ length g
    → subscription_id_from_data topic f ≡ subscription_id_from_data topic g
unfolding subscription_id_from_data
subscription_id-same topic [] [] e = refl
subscription_id-same topic [] (y ∷ g) e = cc e
subscription_id-same topic (x ∷ f) [] e = cc e
subscription_id-same topic (x ∷ f) (y ∷ g) e = ap (λ n. Str.◌++◌ topic (Str.◌++◌ ":" (decimal n))) e

register_subscription-lookup :
    (s : Session) (now : ℕ) (b : SubscriptionBinding)
    → s.closed ≡ false
    → (trim b.topic == "") ≡ false
    → lookup (completed_binding now b).id (register_subscription s now b).0.subscriptions
      ≡ some (completed_binding now b)
unfolding register_subscription
register_subscription-lookup s now b active named =
    let stored = completed_binding now b in
    rw (named, active, lookup-insert stored.id stored.id stored s.subscriptions, eq_self stored.id)
      refl

register_subscription-closed :
    (s : Session) (now : ℕ) (b : SubscriptionBinding)
    → (register_subscription s now b).0.closed ≡ s.closed
unfolding register_subscription
register_subscription-closed s now b =
    if_cases (λ (r : Session × Result SubscriptionBinding). r.0.closed ≡ s.closed)
      (trim b.topic == "") (λ _. refl)
      (λ _.
        if_cases (λ (r : Session × Result SubscriptionBinding). r.0.closed ≡ s.closed) s.closed
          (λ _. refl) (λ _. refl))

-- Two bindings of one topic without ids, whose filters have equally many entries, have one id: in an open
-- session the second takes the place of the first, whatever the filters say.
pub register_subscription-replaces :
    (s : Session) (now later : ℕ) (a b : SubscriptionBinding)
    → s.closed ≡ false
    → (trim a.topic == "") ≡ false
    → (trim a.id == "") ≡ true
    → (trim b.id == "") ≡ true
    → a.topic ≡ b.topic
    → length a.filter ≡ length b.filter
    → let first = register_subscription s now a in
      (lookup (completed_binding now a).id first.0.subscriptions ≡ some (completed_binding now a))
      × (lookup (completed_binding now a).id (register_subscription first.0 later b).0.subscriptions
          ≡ some (completed_binding later b))
register_subscription-replaces s now later a b active named blank blank' topic size =
    let first = (register_subscription s now a).0 in
    let same : (completed_binding now a).id ≡ (completed_binding later b).id =
      rw (blank, blank')
        (ap (λ t. subscription_id_from_data t a.filter) topic
          ∙ subscription_id-same b.topic a.filter b.filter size) in
    (
      register_subscription-lookup s now a active named,
      ap (λ i. lookup i (register_subscription first later b).0.subscriptions) same
          ∙ register_subscription-lookup first later b
              (register_subscription-closed s now a ∙ active)
              (ap (λ t. trim t == "") (sym topic) ∙ named),
    )

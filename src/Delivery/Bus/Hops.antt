-- ===== src/Delivery/Bus/Hops.antt =====
-- SendEnvelope and the hop limit of an envelope.
use sourcevcode_orchestrator.Prelude.{
  String, List, [], ◌∷◌, ◌++◌, Option, none, some, ◌≡◌, refl, ap, subst, ◌⊎◌, false, arith,
  if◌then◌else◌, ◌==◌, Bool-cases, All, All-append, All-remove, inl, inr, update,
}
use sourcevcode_orchestrator.Prelude.Int.{pos, ◌+ℤ◌, ◌≤ℤ◌}
use sourcevcode_orchestrator.Domain.Envelope.{TaskEnvelope}
use sourcevcode_orchestrator.Delivery.Bus.{
  MessageBus, agent_topic, consume, requeue_front, ack, ack_dead, bury, hops_exceeded, hop,
  send_out, record_sent,
}
use sourcevcode_orchestrator.Delivery.Bus.Steps.{
  Broker, new_broker, Step, publishes, records, acks, buries, acks_dead, takes, returns, drops,
  Reach, here, next,
}

-- The envelope has a limit and has not passed it, or has none.
abbrev pub WithinHops : TaskEnvelope → Type 0
WithinHops e = (e.max_hops ≤ℤ pos 0) ⊎ (e.hop_count ≤ℤ e.max_hops)

abbrev pub HeldWithin : String × TaskEnvelope → Type 0
HeldWithin d = WithinHops d.1

pub record IsBounded (w : Broker) : Type 0 where
  pub queued_within : (topic : String) → All WithinHops (w.bus.queues topic)
  pub held_within : All HeldWithin w.held

hop-WithinHops : (e : TaskEnvelope) → hops_exceeded e ≡ false → WithinHops (hop e)
unfolding hop hops_exceeded ◌+ℤ◌
hop-WithinHops e h = ground arith

All-at :
    (k j : String) (q : String → List TaskEnvelope) (l : List TaskEnvelope)
    → All WithinHops l
    → All WithinHops (q j)
    → All WithinHops (if k == j then l else q j)
All-at k j q l hl hq = elim (Bool-cases (k == j)) [ inl e ↦ rw e hl | inr e ↦ rw e hq ]

send_out-within :
    (b : MessageBus) (e : TaskEnvelope)
    → hops_exceeded e ≡ false
    → ((topic : String) → All WithinHops (b.queues topic))
    → (topic : String) → All WithinHops ((send_out b e).queues topic)
unfolding send_out
send_out-within b e within h j =
    let t = agent_topic e.target_agent in
    All-at t j b.queues (b.queues t ++ hop e ∷ [])
      (All-append WithinHops (b.queues t) (hop e ∷ []) (h t) (hop-WithinHops e within, tt)) (h j)

-- What a consume finds: nothing, or the head of the queue.
pub consume_cases :
    (b : MessageBus) (topic : String)
    → ((b.queues topic ≡ []) × (consume b topic ≡ (b, none)))
      ⊎ ((e : TaskEnvelope) × (rest : List TaskEnvelope) × (b.queues topic ≡ e ∷ rest)
          × (consume b topic ≡ (record b { queues = update b.queues topic rest }, some e)))
unfolding consume
consume_cases b topic = go (b.queues topic) refl
  where
    go :
        (q : List TaskEnvelope)
        → b.queues topic ≡ q
        → ((b.queues topic ≡ []) × (consume b topic ≡ (b, none)))
          ⊎ ((e : TaskEnvelope) × (rest : List TaskEnvelope) × (b.queues topic ≡ e ∷ rest)
              × (consume b topic ≡ (record b { queues = update b.queues topic rest }, some e)))
    go [] p = inl (p, rw (p, consume))
    go (e ∷ rest) p = inr (e, rest, p, rw (p, consume))

abbrev taken : MessageBus × Option TaskEnvelope → Option TaskEnvelope
taken r = r.1

takes-IsBounded :
    (w : Broker) (topic : String) (e : TaskEnvelope)
    → (consume w.bus topic).1 ≡ some e
    → IsBounded w
    → IsBounded (record w { bus = (consume w.bus topic).0; held = (topic, e) ∷ w.held })
takes-IsBounded w topic e h i = elim (consume_cases w.bus topic) [
  | inl (p, c) ↦ absurd (cc c)
  | inr (x, rest, p, c) ↦
      let found : All WithinHops (x ∷ rest) = subst (All WithinHops) p (i.queued_within topic) in
      let same : x ≡ e = cc (ap taken c) in
      record {
        queued_within = λ j. rw c (All-at topic j w.bus.queues rest found.1 (i.queued_within j));
        held_within = (subst WithinHops same found.0, i.held_within);
      }
]

Step-IsBounded : {w v : Broker} → Step w v → IsBounded w → IsBounded v
unfolding requeue_front ack ack_dead bury record_sent
Step-IsBounded (publishes w e h) i = record {
  queued_within = send_out-within w.bus e h i.queued_within;
  held_within = i.held_within;
}
Step-IsBounded (records w e xs ys h) i = record {
  queued_within = i.queued_within;
  held_within = i.held_within;
}
Step-IsBounded (acks w id status by reason h) i = record {
  queued_within = i.queued_within;
  held_within = i.held_within;
}
Step-IsBounded (buries w e reason) i = record {
  queued_within = i.queued_within;
  held_within = i.held_within;
}
Step-IsBounded (acks_dead w id reason xs ys h) i = record {
  queued_within = i.queued_within;
  held_within = i.held_within;
}
Step-IsBounded (takes w topic e h) i = takes-IsBounded w topic e h i
Step-IsBounded (returns w topic e xs ys h) i =
    let held : All HeldWithin (xs ++ ((topic, e) ∷ ys)) = subst (All HeldWithin) h i.held_within in
    let (mine, others) = All-remove HeldWithin xs (topic, e) ys held in
    record {
      queued_within = λ j.
          All-at topic j w.bus.queues (e ∷ w.bus.queues topic) (mine, i.queued_within topic)
            (i.queued_within j);
      held_within = others;
    }
Step-IsBounded (drops w d xs ys h) i = record {
  queued_within = i.queued_within;
  held_within = (All-remove HeldWithin xs d ys (subst (All HeldWithin) h i.held_within)).1;
}

Reach-IsBounded_from : {w v : Broker} → IsBounded w → Reach w v → IsBounded v
Reach-IsBounded_from i here = i
Reach-IsBounded_from i (next r st) = Step-IsBounded st (Reach-IsBounded_from i r)

-- After any interleaving of calls on a new bus, no envelope with a positive hop limit stands in a
-- queue, or is held by a consumer, with more hops than its limit.
pub Reach-IsBounded : {w : Broker} → Reach new_broker w → IsBounded w
Reach-IsBounded = Reach-IsBounded_from (record { queued_within = λ _. tt; held_within = tt })

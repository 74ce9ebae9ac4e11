-- ===== src/Delivery/Bus/Fifo.antt =====
-- The queues of the bus: order of delivery, and what a Nack restores.
use mathlib.Core.List.{append_assoc, append-nil}
use sourcevcode_orchestrator.Prelude.{
  String, List, [], ◌∷◌, ◌++◌, Option, none, some, ◌≡◌, sym, arith, if◌then◌else◌, ◌==◌, eq_iff,
  inl, inr, update, eq_self, str_cases,
}
use sourcevcode_orchestrator.Domain.Envelope.{TaskEnvelope}
use sourcevcode_orchestrator.Delivery.Bus.{MessageBus, consume, publish, requeue_front}
use sourcevcode_orchestrator.Delivery.Bus.Hops.{consume_cases}

pub data Op : Type 0 where
  put : String → TaskEnvelope → Op
  get : String → Op

-- What a consumer of a topic got from one call.
abbrev pub got : String → Option TaskEnvelope → List (String × TaskEnvelope)
got k none = []
got k (some e) = (k, e) ∷ []

-- The bus after the calls, and all that they delivered, with the topics.
unfoldable pub run : MessageBus → List Op → MessageBus × List (String × TaskEnvelope)
run b [] = (b, [])
run b (put k e ∷ ops) = run (publish b k e) ops
run b (get k ∷ ops) =
    let (b', e) = consume b k in let (b'', rest) = run b' ops in (b'', got k e ++ rest)

abbrev pub on_topic : String → List (String × TaskEnvelope) → List TaskEnvelope
on_topic t [] = []
on_topic t ((k, e) ∷ ds) = if k == t then e ∷ on_topic t ds else on_topic t ds

abbrev pub published : String → List Op → List TaskEnvelope
published t [] = []
published t (put k e ∷ ops) = if k == t then e ∷ published t ops else published t ops
published t (get k ∷ ops) = published t ops

queues-publish :
    (t k : String) (e : TaskEnvelope) (b : MessageBus)
    → (publish b k e).queues t ≡ (if k == t then b.queues t ++ e ∷ [] else b.queues t)
unfolding publish
queues-publish t k e b = elim (str_cases k t) [
  | inl p ↦ rw (p, eq_self)
  | inr n ↦ ground (arith, eq_iff k t)
]

-- For any sequence of publications and consumptions, on any topics: what consumers of one topic have
-- received, followed by what is still queued there, is what was queued at first followed by what was
-- published to that topic, in the order of publication. So nothing is lost, repeated or reordered.
pub run_fifo :
    (t : String) (ops : List Op) (b : MessageBus)
    → on_topic t (run b ops).1 ++ (run b ops).0.queues t ≡ b.queues t ++ published t ops
unfolding run
run_fifo t [] b = sym (append-nil (b.queues t))
run_fifo t (put k e ∷ ops) b = ground (
  arith,
  run_fifo t ops (publish b k e),
  queues-publish t k e b,
  append_assoc (b.queues t) (e ∷ []) (published t ops),
)
run_fifo t (get k ∷ ops) b = elim (consume_cases b k) [
  | inl (p, c) ↦ rw c (run_fifo t ops b)
  | inr (e, rest, p, c) ↦ rw c (elim (str_cases k t) [
    | inl q ↦
        let ih = run_fifo t ops (record b { queues = update b.queues k rest }) in
        ground (arith, ih, p, q, eq_iff k t)
    | inr n ↦
        let ih = run_fifo t ops (record b { queues = update b.queues k rest }) in
        ground (arith, ih, eq_iff k t)
  ])
]

-- A consumed envelope that is rejected with requeue goes back where it was: every queue of the bus is as
-- before the consumption.
pub requeue_front-consume :
    (b : MessageBus) (topic : String) (e : TaskEnvelope)
    → (consume b topic).1 ≡ some e
    → (t : String) → (requeue_front (consume b topic).0 topic e).queues t ≡ b.queues t
unfolding requeue_front
requeue_front-consume b topic e h t = elim (consume_cases b topic) [
  | inl (p, c) ↦ absurd (cc c)
  | inr (x, rest, p, c) ↦ elim (str_cases topic t) [
    | inl q ↦ ground (arith, c, p, q, eq_iff topic t)
    | inr n ↦ ground (arith, c, eq_iff topic t)
  ]
]

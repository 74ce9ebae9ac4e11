-- ===== src/Realtime/Buffers.antt =====
-- What the subscribers of the hub hold, and what is counted as dropped.
use sourcevcode_orchestrator.Prelude.{
  ℕ, suc, ◌+◌, List, [], ◌∷◌, Bool, ◌≡◌, refl, arith, inl, inr, Bool-cases, if_cases, if◌then◌else◌,
  length, length-append,
}
use sourcevcode_orchestrator.Realtime.{
  Hub, Subscriber, StreamEvent, deliver, deliver_to, has_room, same_number,
}

-- The number of events that wait for the subscribers.
pub waiting : List Subscriber → ℕ
waiting [] = 0
waiting (s ∷ subs) = length s.buffer + waiting subs

deliver_to-waiting :
    (n : ℕ) (e : StreamEvent) (subs : List Subscriber)
    → waiting (deliver_to n e subs).0
      ≡ (if (deliver_to n e subs).1 then suc (waiting subs) else waiting subs)
unfolding waiting deliver_to
deliver_to-waiting n e [] = refl
deliver_to-waiting n e (s ∷ subs) =
    if_cases
      (λ (q : List Subscriber × Bool).
        waiting q.0 ≡ (if q.1 then suc (waiting (s ∷ subs)) else waiting (s ∷ subs)))
      (same_number n s)
      (λ _.
        if_cases
          (λ (q : List Subscriber × Bool).
            waiting q.0 ≡ (if q.1 then suc (waiting (s ∷ subs)) else waiting (s ∷ subs)))
          (has_room s) (λ _. omega (arith, length-append s.buffer (e ∷ []))) (λ _. refl))
      (λ _. elim (Bool-cases (deliver_to n e subs).1) [
        | inl t ↦ rw t (let k = rw t at (deliver_to-waiting n e subs) in omega (arith, k))
        | inr f ↦ rw f (let k = rw f at (deliver_to-waiting n e subs) in omega (arith, k))
      ])

-- An event that Publish hands to a subscriber either waits in a channel afterwards or is counted as
-- dropped, and never both.
pub deliver-counted :
    (n : ℕ) (e : StreamEvent) (h : Hub)
    → let k = deliver n e h in
      waiting k.subscribers + k.dropped ≡ suc (waiting h.subscribers + h.dropped)
unfolding deliver
deliver-counted n e h = elim (Bool-cases (deliver_to n e h.subscribers).1) [
  | inl t ↦ rw t (let k = rw t at (deliver_to-waiting n e h.subscribers) in omega (arith, k))
  | inr f ↦ rw f (let k = rw f at (deliver_to-waiting n e h.subscribers) in omega (arith, k))
]

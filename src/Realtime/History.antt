-- ===== src/Realtime/History.antt =====
-- The hub's history refines the plain log of all events: of each topic it keeps the latest ones.
use mathlib.Core.List.{append-nil}
use sourcevcode_orchestrator.Prelude.{
  ℕ, ◌-◌, String, List, [], ◌∷◌, ◌++◌, false, ◌≡◌, refl, sym, ap, ◌∙◌, arith, inl, inr, Bool-cases,
  if_cases, if◌then◌else◌, ◌==◌, eq_iff, leb, length, drop, drop_nil, last, last-append, keep,
  keep-append, lookup, lookup-insert,
}
use sourcevcode_orchestrator.Prelude.Int.{ℤ}
use sourcevcode_orchestrator.Domain.Json.{Fields}
use sourcevcode_orchestrator.Realtime.{
  Hub, StreamEvent, new_hub, history_of, append_bounded, publish, deliver, subscribe, close,
  receive, event_of, snapshot, Reach,
}

-- The events of a topic, in the order of the log.
abbrev pub on_topic : String → List StreamEvent → List StreamEvent
on_topic topic log = keep (λ (e : StreamEvent). e.topic == topic) log

append_bounded-last :
    (events : List StreamEvent) (e : StreamEvent) (limit : ℕ)
    → append_bounded events e limit ≡ last limit (events ++ (e ∷ []))
unfolding append_bounded
append_bounded-last events e limit =
    let l = events ++ (e ∷ []) in
    if_cases (λ r. r ≡ last limit l) (leb (length l) limit)
      (λ t.
        let none_off : length l - limit ≡ 0 = ground (arith, t) in
        ap (λ n. drop n l) (sym none_off))
      (λ _. refl)

-- The history of a hub is that of the log.
record Refines (size : ℕ) (log : List StreamEvent) (h : Hub) : Type 0 where
  sized : h.history_size ≡ size
  kept : (topic : String) → history_of h topic ≡ last size (on_topic topic log)

publish-history :
    (h : Hub) (now : ℕ) (topic kind entity : String) (payload : Fields) (wanted : String)
    → let e = event_of h now topic kind entity payload in
      history_of (publish h now topic kind entity payload).0 wanted ≡ (
        if e.topic == wanted
        then last h.history_size (history_of h e.topic ++ (e ∷ []))
        else history_of h wanted)
unfolding publish
publish-history h now topic kind entity payload wanted =
    let e = event_of h now topic kind entity payload in
    rw
      (
        lookup-insert e.topic wanted (append_bounded (history_of h e.topic) e h.history_size)
            h.history,
        append_bounded-last (history_of h e.topic) e h.history_size,
      )
      (elim (Bool-cases (e.topic == wanted)) [ inl t ↦ rw t refl | inr f ↦ rw f refl ])

publish-Refines :
    (size : ℕ) (log : List StreamEvent) (h : Hub) (now : ℕ) (topic kind entity : String)
    (payload : Fields)
    → Refines size log h
    → Refines size
        (log ++ (event_of h now topic kind entity payload ∷ []))
        (publish h now topic kind entity payload).0
unfolding publish
publish-Refines size log h now topic kind entity payload r =
    let e = event_of h now topic kind entity payload in
    record {
      sized = r.sized;
      kept = λ wanted.
          publish-history h now topic kind entity payload wanted
          ∙ sym (
              ap (last size) (keep-append (λ (x : StreamEvent). x.topic == wanted) log (e ∷ []))
              ∙ elim (Bool-cases (e.topic == wanted)) [
                | inl t ↦ rw t (
                    sym (last-append size (on_topic wanted log) e)
                    ∙ sym (
                        ap (λ l. last h.history_size (l ++ (e ∷ [])))
                          (ap (history_of h) ((eq_iff e.topic wanted).0 t) ∙ r.kept wanted)
                        ∙ ap (λ n. last n (last size (on_topic wanted log) ++ (e ∷ []))) r.sized))
                | inr f ↦
                    rw f (ap (last size) (append-nil (on_topic wanted log)) ∙ sym (r.kept wanted))
              ]);
    }

Reach-Refines :
    (name : String) (size : ℤ) {log : List StreamEvent} {h : Hub}
    → Reach (new_hub name size) log h
    → Refines (new_hub name size).history_size log h
unfolding new_hub publish deliver subscribe close receive lookup
Reach-Refines name size Reach.here = record { sized = refl; kept = λ topic. sym (drop_nil _) }
Reach-Refines name size (Reach.publishes {log} {k} now topic kind entity payload log' r e) =
    rw e (publish-Refines _ log k now topic kind entity payload (Reach-Refines name size r))
Reach-Refines name size (Reach.delivers xs n e ys r p) =
    let f = Reach-Refines name size r in record { sized = f.sized; kept = f.kept }
Reach-Refines name size (Reach.subscribes topic r) =
    let f = Reach-Refines name size r in record { sized = f.sized; kept = f.kept }
Reach-Refines name size (Reach.closes n r) =
    let f = Reach-Refines name size r in record { sized = f.sized; kept = f.kept }
Reach-Refines name size (Reach.receives n r) =
    let f = Reach-Refines name size r in record { sized = f.sized; kept = f.kept }

-- However the calls of publishers and subscribers interleave, the snapshot of a topic is the latest
-- events that were published to it, as many as the history size, in the order of publication. The topic
-- is neither empty nor "all".
pub snapshot-last :
    (name : String) (size : ℤ) {log : List StreamEvent} {h : Hub} (topic : String)
    → Reach (new_hub name size) log h
    → (topic == "") ≡ false
    → (topic == "all") ≡ false
    → snapshot h topic ≡ last (new_hub name size).history_size (on_topic topic log)
unfolding snapshot
snapshot-last name size topic r e f = rw (e, f) ((Reach-Refines name size r).kept topic)

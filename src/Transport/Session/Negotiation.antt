-- ===== src/Transport/Session/Negotiation.antt =====
-- The choice of the subprotocol.
use sourcevcode_orchestrator.Prelude.{
  String, List, [], ◌∷◌, ◌++◌, Option, none, some, true, false, ◌≡◌, inl, inr, refl, ap, arith,
  Bool-cases, any,
}
use sourcevcode_orchestrator.Transport.Session.{
  Result, ok, err, protocol, or_default, head_of, offers, first_offered, negotiate_subprotocol,
}

-- The text is offered, and stands in the list after texts that are not.
pub record IsFirstOffered (supported requested : List String) (s : String) : Type 0 where
  pub before : List String
  pub after : List String
  pub split : requested ≡ before ++ s ∷ after
  pub offered : offers supported s ≡ true
  pub skipped : any (offers supported) before ≡ false

-- What is chosen of a list, or that none of it is offered.
abbrev Chosen : List String → List String → Option String → Type 0
Chosen supported requested none = any (offers supported) requested ≡ false
Chosen supported requested (some s) = IsFirstOffered supported requested s

later :
    (supported : List String) (item : String) (requested : List String) (r : Option String)
    → offers supported item ≡ false
    → Chosen supported requested r
    → Chosen supported (item ∷ requested) r
later supported item requested none f c = ground (arith, f, c)
later supported item requested (some s) f c = record {
  before = item ∷ c.before;
  after = c.after;
  split = ap (λ l. item ∷ l) c.split;
  offered = c.offered;
  skipped = ground (arith, f, c.skipped);
}

first_offered-Chosen :
    (supported requested : List String)
    → Chosen supported requested (first_offered supported requested)
unfolding first_offered
first_offered-Chosen supported [] = refl
first_offered-Chosen supported (item ∷ requested) = elim (Bool-cases (offers supported item)) [
  | inl t ↦
      rw t (record { before = []; after = requested; split = refl; offered = t; skipped = refl })
  | inr f ↦ rw f (
      later supported item requested (first_offered supported requested) f
        (first_offered-Chosen supported requested))
]

-- With nothing requested, the first of those that are supported; else the first requested one that is
-- supported, or an error.
abbrev pub Negotiated : List String → List String → Result String → Type 0
Negotiated supported [] r = r ≡ ok (head_of (or_default supported))
Negotiated supported (item ∷ rest) (ok s) = IsFirstOffered (or_default supported) (item ∷ rest) s
Negotiated supported (item ∷ rest) (err e) =
    (e ≡ protocol "no compatible websocket subprotocol")
    × (any (offers (or_default supported)) (item ∷ rest) ≡ false)

-- When a client asks for no subprotocol, it gets the first supported one. Otherwise it gets the first of those it
-- asks for that is supported, and an error if and only if none is. An empty list of supported
-- subprotocols stands for the default ones.
pub negotiate_subprotocol-Negotiated :
    (supported requested : List String)
    → Negotiated supported requested (negotiate_subprotocol requested supported)
unfolding negotiate_subprotocol
negotiate_subprotocol-Negotiated supported [] = refl
negotiate_subprotocol-Negotiated supported (item ∷ rest) =
    by_choice (first_offered (or_default supported) (item ∷ rest))
      (first_offered-Chosen (or_default supported) (item ∷ rest))
  where
    by_choice :
        (r : Option String)
        → Chosen (or_default supported) (item ∷ rest) r
        → Negotiated supported
            (item ∷ rest)
            (elim r [ some s ↦ ok s | none ↦ err (protocol "no compatible websocket subprotocol") ])
    by_choice none c = (refl, c)
    by_choice (some s) c = c

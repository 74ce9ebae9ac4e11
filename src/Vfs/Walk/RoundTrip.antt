-- ===== src/Vfs/Walk/RoundTrip.antt =====
-- What walkHydrate makes of a value that walkValue has taken apart.
use sourcevcode_orchestrator.Prelude.{
  ℕ, String, List, [], ◌∷◌, ◌++◌, none, some, Bool, true, false, ◌&&◌, not, ◌≡◌, refl, ap, ◌∙◌,
  arith, All, if_cases, ◌==◌, trim,
}
use sourcevcode_orchestrator.Domain.Json.{
  Value, Items, Fields, text, scalar, number, list, object, nil, cons, end, field,
}
use sourcevcode_orchestrator.Vfs.Store.{VfsArtifact, FileStore, get_vfs_artifact}
use sourcevcode_orchestrator.Vfs.Walk.{
  Hydrated, ok, then_ok, then_both, content_or, reference, stub_fields, resolve, persist_artifact,
  stub, walk_value, walk_items, walk_fields, walk_hydrate, walk_hydrate_items, walk_hydrate_fields,
  should_externalize_string,
}

-- No map in the value has the key of a reference.
unfoldable mutual
  pub is_plain : Value → Bool
  is_plain (object fs) = all_plain_fields fs
  is_plain (list is) = all_plain is
  is_plain (text t) = true
  is_plain (scalar t) = true
  is_plain (number n) = true

  pub all_plain : Items → Bool
  all_plain nil = true
  all_plain (cons v is) = is_plain v && all_plain is

  pub all_plain_fields : Fields → Bool
  all_plain_fields end = true
  all_plain_fields (field k v rest) =
      not (k == "$vfs_artifact") && is_plain v && all_plain_fields rest

-- The store has the artifact's content under its id.
pub record IsStored (store : FileStore) (a : VfsArtifact) : Type 0 where
  pub not_blank : (trim a.artifact_id == "") ≡ false
  pub found : VfsArtifact
  pub is_found : get_vfs_artifact store a.artifact_id ≡ some found
  pub same_content : found.content ≡ a.content

reference-stub :
    (a : VfsArtifact)
    → (trim a.artifact_id == "") ≡ false
    → reference (stub_fields a) ≡ some a.artifact_id
unfolding reference
reference-stub a h = ground arith

hydrate-reference :
    (store : FileStore) (fs : Fields) (ref : String)
    → reference fs ≡ some ref
    → walk_hydrate store (object fs) ≡ content_or ref (get_vfs_artifact store ref)
unfolding walk_hydrate
hydrate-reference store fs ref h = ap (λ o. resolve store o (walk_hydrate_fields store fs)) h

pub hydrate-map :
    (store : FileStore) (fs : Fields)
    → reference fs ≡ none
    → walk_hydrate store (object fs) ≡ then_ok object (walk_hydrate_fields store fs)
unfolding walk_hydrate
hydrate-map store fs h = ap (λ o. resolve store o (walk_hydrate_fields store fs)) h

hydrate-stub :
    (store : FileStore) (a : VfsArtifact)
    → IsStored store a
    → walk_hydrate store (stub a) ≡ ok (text a.content)
hydrate-stub store a h =
    hydrate-reference store (stub_fields a) a.artifact_id (reference-stub a h.not_blank)
    ∙ ap (content_or a.artifact_id) h.is_found
    ∙ ap (λ t. ok (text t)) h.same_content

reference-other :
    (k : String) (v : Value) (rest : Fields)
    → (k == "$vfs_artifact") ≡ false
    → reference (field k v rest) ≡ reference rest
unfolding reference
reference-other k (text t) rest h = rw h refl
reference-other k (scalar t) rest h = rw h refl
reference-other k (number n) rest h = rw h refl
reference-other k (list is) rest h = rw h refl
reference-other k (object fs) rest h = rw h refl

module _ (uri digest : String → String) (now threshold : ℕ) where
  reference-walk_field :
      (k : String) (v : Value) (rest : Fields)
      → (k == "$vfs_artifact") ≡ false
      → reference (walk_fields uri digest now threshold (field k v rest)).1
        ≡ reference (walk_fields uri digest now threshold rest).1
  unfolding walk_fields
  reference-walk_field k (text t) rest h =
      if_cases
        (λ (r : List VfsArtifact × Fields).
          reference r.1 ≡ reference (walk_fields uri digest now threshold rest).1)
        (should_externalize_string threshold k t) (λ _. reference-other k _ _ h)
        (λ _. reference-other k _ _ h)
  reference-walk_field k (scalar t) rest h = reference-other k _ _ h
  reference-walk_field k (number n) rest h = reference-other k _ _ h
  reference-walk_field k (list is) rest h = reference-other k _ _ h
  reference-walk_field k (object fs) rest h = reference-other k _ _ h

  pub reference-walk :
      (fs : Fields)
      → all_plain_fields fs ≡ true
      → reference (walk_fields uri digest now threshold fs).1 ≡ none
  unfolding walk_fields all_plain_fields reference
  reference-walk end h = refl
  reference-walk (field k v rest) h =
      reference-walk_field k v rest (ground arith) ∙ reference-walk rest (ground arith)

  module _ (store : FileStore) where
    All-split :
        (l m : List VfsArtifact)
        → All (IsStored store) (l ++ m)
        → All (IsStored store) l × All (IsStored store) m
    All-split [] m h = (tt, h)
    All-split (a ∷ l) m h = let (p, q) = All-split l m h.1 in ((h.0, p), q)

    both :
        {A B C : Type 0} (f : A → B → C) {x : Hydrated A} {y : Hydrated B} {a : A} {b : B}
        → x ≡ ok a
        → y ≡ ok b
        → then_both f x y ≡ ok (f a b)
    both f {y = y} {a = a} p q = ap (λ x. then_both f x y) p ∙ ap (then_ok (f a)) q

    hydrate-text :
        (k t : String) (rest : Fields)
        → All (IsStored store) (walk_fields uri digest now threshold (field k (text t) rest)).0
        → (All (IsStored store) (walk_fields uri digest now threshold rest).0
            → walk_hydrate_fields store (walk_fields uri digest now threshold rest).1 ≡ ok rest)
        → walk_hydrate_fields store (walk_fields uri digest now threshold (field k (text t) rest)).1
          ≡ ok (field k (text t) rest)
    unfolding walk_fields walk_hydrate_fields walk_hydrate persist_artifact
    hydrate-text k t rest h ih =
        if_cases
          (λ (r : List VfsArtifact × Fields).
            All (IsStored store) r.0 → walk_hydrate_fields store r.1 ≡ ok (field k (text t) rest))
          (should_externalize_string threshold k t)
          (λ _ here.
            both (field k)
              (hydrate-stub store (persist_artifact uri digest now threshold k t) here.0)
              (ih here.1))
          (λ _ here. ap (then_ok (field k (text t))) (ih here)) h

    mutual
      unfolding walk_value walk_hydrate is_plain

      pub hydrate-walk :
          (v : Value)
          → is_plain v ≡ true
          → All (IsStored store) (walk_value uri digest now threshold v).0
          → walk_hydrate store (walk_value uri digest now threshold v).1 ≡ ok v
      hydrate-walk (text t) p h = refl
      hydrate-walk (scalar t) p h = refl
      hydrate-walk (number n) p h = refl
      hydrate-walk (list is) p h = ap (then_ok list) (hydrate-walk_items is p h)
      hydrate-walk (object fs) p h =
          hydrate-map store (walk_fields uri digest now threshold fs).1 (reference-walk fs p)
          ∙ ap (then_ok object) (hydrate-walk_fields fs p h)

      hydrate-walk_items :
          (is : Items)
          → all_plain is ≡ true
          → All (IsStored store) (walk_items uri digest now threshold is).0
          → walk_hydrate_items store (walk_items uri digest now threshold is).1 ≡ ok is
      hydrate-walk_items nil p h = refl
      hydrate-walk_items (cons v is) p h =
          let (here, there) = All-split (walk_value uri digest now threshold v).0 _ h in
          both cons (hydrate-walk v (ground arith) here)
            (hydrate-walk_items is (ground arith) there)

      pub hydrate-walk_fields :
          (fs : Fields)
          → all_plain_fields fs ≡ true
          → All (IsStored store) (walk_fields uri digest now threshold fs).0
          → walk_hydrate_fields store (walk_fields uri digest now threshold fs).1 ≡ ok fs
      hydrate-walk_fields end p h = refl
      hydrate-walk_fields (field k (text t) rest) p h =
          hydrate-text k t rest h (λ there. hydrate-walk_fields rest (ground arith) there)
      hydrate-walk_fields (field k (scalar t) rest) p h =
          both (field k) refl (hydrate-walk_fields rest (ground arith) h)
      hydrate-walk_fields (field k (number n) rest) p h =
          both (field k) refl (hydrate-walk_fields rest (ground arith) h)
      hydrate-walk_fields (field k (list is) rest) p h =
          let (here, there) = All-split (walk_items uri digest now threshold is).0 _ h in
          both (field k) (ap (then_ok list) (hydrate-walk_items is (ground arith) here))
            (hydrate-walk_fields rest (ground arith) there)
      hydrate-walk_fields (field k (object fs) rest) p h =
          let (here, there) = All-split (walk_fields uri digest now threshold fs).0 _ h in
          both (field k)
            (hydrate-map store (walk_fields uri digest now threshold fs).1
                (reference-walk fs (ground arith))
              ∙ ap (then_ok object) (hydrate-walk_fields fs (ground arith) here))
            (hydrate-walk_fields rest (ground arith) there)

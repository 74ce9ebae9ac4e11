-- ===== src/Vfs/Walk.antt =====
-- go-core/internal/vfs/manager.go: walkValue, which moves long texts of a checkpoint into artifacts, and
-- walkHydrate, which puts them back. `digest` stands for the SHA-256 of a text, in hexadecimal; `now`
-- for the clock.
pub mod RoundTrip
use Prim.Native.Char.{code}
use Prim.Native.String.{String, ◌++◌ as str_append}
use sourcevcode_orchestrator.Prelude.{
  ℕ, ◌+◌, ◌*◌, List, [], ◌∷◌, ◌++◌, Option, none, some, Bool, true, false, ◌||◌, ◌&&◌, not,
  if◌then◌else◌, ◌==◌, trim, lower_is, ltb,
}
use sourcevcode_orchestrator.Prelude.Int.{pos}
use sourcevcode_orchestrator.Domain.Json.{
  Value, Items, Fields, text, scalar, number, list, object, nil, cons, end, field,
}
use sourcevcode_orchestrator.Vfs.Store.{VfsArtifact, FileStore, get_vfs_artifact}

-- len of a Go string: its length in UTF-8.
unfoldable pub len : String → ℕ
len String.[] = 0
len (String.◌∷◌ c s) =
    (if ltb (code c) 0x80
      then 1
      else if ltb (code c) 0x800
      then 2
      else if ltb (code c) 0x10000
      then 3
      else 4)
    + len s

unfoldable pub should_externalize_string : ℕ → String → String → Bool
unfolding len
should_externalize_string threshold key value =
    if ltb (len value) threshold
    then false
    else (lower_is (trim key) "summary"
        || lower_is (trim key) "diff"
        || lower_is (trim key) "markdown"
        || lower_is (trim key) "raw_output"
        || lower_is (trim key) "raw_response"
        || lower_is (trim key) "logs"
        || not (ltb (len value) (threshold * 2)))

unfoldable pub guess_artifact_mime : String → String
guess_artifact_mime key =
    if lower_is (trim key) "markdown"
    then "text/markdown"
    else if lower_is (trim key) "diff"
    then "text/x-diff"
    else "text/plain"

-- The entry "$vfs_artifact" of a map, where it is a text that is not blank.
unfoldable pub reference : Fields → Option String
reference end = none
reference (field k (text t) rest) =
    let later = reference rest in
    if k == "$vfs_artifact" then (if trim t == "" then none else some t) else later
reference (field k _ rest) =
    let later = reference rest in if k == "$vfs_artifact" then none else later

-- What walkHydrate returns: a value, or the error for an artifact that the store does not have.
pub data Hydrated {ℓ} (A : Type ℓ) : Type ℓ where
  ok : A → Hydrated A
  not_found : String → Hydrated A

abbrev pub then_ok {ℓ κ} : {A : Type ℓ} {B : Type κ} → (A → B) → Hydrated A → Hydrated B
then_ok f (ok a) = ok (f a)
then_ok f (not_found id) = not_found id

abbrev pub then_both {ℓ κ μ} :
    {A : Type ℓ} {B : Type κ} {C : Type μ} → (A → B → C) → Hydrated A → Hydrated B → Hydrated C
then_both f (ok a) b = then_ok (f a) b
then_both f (not_found id) b = not_found id

abbrev pub content_or : String → Option VfsArtifact → Hydrated Value
content_or ref none = not_found ref
content_or ref (some a) = ok (text a.content)

-- The map that stands for an externalised text.
abbrev pub stub_fields : VfsArtifact → Fields
stub_fields a = field "$vfs_artifact" (text a.artifact_id) (
    field "sha256" (text a.sha256)
      (field "size_bytes" (number (pos a.size_bytes)) (field "mime_type" (text a.mime_type) end)))

abbrev pub stub : VfsArtifact → Value
stub a = object (stub_fields a)

-- A map, from its reference and its entries.
abbrev pub resolve : FileStore → Option String → Hydrated Fields → Hydrated Value
resolve store none entries = then_ok object entries
resolve store (some ref) entries = content_or ref (get_vfs_artifact store ref)

module _ (storage_uri : String → String) (digest : String → String) (now threshold : ℕ) where
  unfoldable pub persist_artifact : String → String → VfsArtifact
  unfolding guess_artifact_mime len
  persist_artifact key content = record {
    artifact_id = digest content;
    storage_uri = storage_uri (digest content);
    sha256 = digest content;
    size_bytes = len content;
    mime_type = guess_artifact_mime key;
    content = content;
    metadata = field "field" (text key) end;
    created_at = now;
  }

  unfoldable mutual
    unfolding should_externalize_string persist_artifact

    pub walk_value : Value → List VfsArtifact × Value
    walk_value (object fs) = let (l, fs') = walk_fields fs in (l, object fs')
    walk_value (list is) = let (l, is') = walk_items is in (l, list is')
    walk_value (text t) = ([], text t)
    walk_value (scalar t) = ([], scalar t)
    walk_value (number n) = ([], number n)

    pub walk_items : Items → List VfsArtifact × Items
    walk_items nil = ([], nil)
    walk_items (cons v is) =
        let (l, v') = walk_value v in let (m, is') = walk_items is in (l ++ m, cons v' is')

    pub walk_fields : Fields → List VfsArtifact × Fields
    walk_fields end = ([], end)
    walk_fields (field k (text t) rest) =
        let (m, rest') = walk_fields rest in
        if should_externalize_string threshold k t
        then (persist_artifact k t ∷ m, field k (stub (persist_artifact k t)) rest')
        else (m, field k (text t) rest')
    walk_fields (field k v rest) =
        let (l, v') = walk_value v in
        let (m, rest') = walk_fields rest in (l ++ m, field k v' rest')

module _ (store : FileStore) where
  unfoldable mutual
    unfolding reference

    pub walk_hydrate : Value → Hydrated Value
    walk_hydrate (object fs) = resolve store (reference fs) (walk_hydrate_fields fs)
    walk_hydrate (list is) = then_ok list (walk_hydrate_items is)
    walk_hydrate (text t) = ok (text t)
    walk_hydrate (scalar t) = ok (scalar t)
    walk_hydrate (number n) = ok (number n)

    pub walk_hydrate_items : Items → Hydrated Items
    walk_hydrate_items nil = ok nil
    walk_hydrate_items (cons v is) = then_both cons (walk_hydrate v) (walk_hydrate_items is)

    pub walk_hydrate_fields : Fields → Hydrated Fields
    walk_hydrate_fields end = ok end
    walk_hydrate_fields (field k v rest) =
        then_both (field k) (walk_hydrate v) (walk_hydrate_fields rest)

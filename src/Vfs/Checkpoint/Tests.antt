-- ===== src/Vfs/Checkpoint/Tests.antt =====
-- A concrete checkpoint, written and read.
use mathlib.Core.List.{Mem}
use sourcevcode_orchestrator.Prelude.{
  String, List, none, Bool, true, false, ◌≡◌, refl, sym, ◌∙◌, All-Mem, eq_iff, ◌==◌, if◌then◌else◌,
  trim, trim_left, trim_right, is_space, is_empty, lower_is, lower_code,
}
use sourcevcode_orchestrator.Domain.Json.{Fields, text, end, field}
use sourcevcode_orchestrator.Vfs.Store.{VfsArtifact, VfsCheckpointRecord, FileStore}
use sourcevcode_orchestrator.Vfs.Walk.{
  walk_fields, should_externalize_string, persist_artifact, len,
}
use sourcevcode_orchestrator.Vfs.Walk.RoundTrip.{all_plain_fields}
use sourcevcode_orchestrator.Vfs.Checkpoint.{found, read_checkpoint, write_checkpoint}
use sourcevcode_orchestrator.Vfs.Checkpoint.Laws.{read-write}

abbrev same_text : String → String
same_text t = t

-- A digest that tells the one text of the example from none.
abbrev digest : String → String
digest t = "d1"

-- A checksum that tells a text from a map in the first entry.
abbrev checksum : Fields → String
checksum (field k (text t) rest) = "text"
checksum _ = "other"

abbrev no_store : FileStore
no_store = record { vfs_artifacts = λ _. none; vfs_checkpoints = λ _. none }

abbrev plan_record : VfsCheckpointRecord
plan_record = record {
  path = "plans/p1";
  task_id = "p1";
  agent_id = "kernel";
  checkpoint = field "summary" (text "a long text") end;
  checksum = "";
  integrity = "";
  metadata = end;
  storage_uri = "";
  created_at = 1;
  updated_at = 1;
}

abbrev artifacts : List VfsArtifact
artifacts = (walk_fields same_text digest 7 4 plan_record.checkpoint).0

abbrev IsProperId : VfsArtifact → Type 0
IsProperId a = (trim a.artifact_id ≡ a.artifact_id) × ((a.artifact_id == "") ≡ false)

bool_set : (s t : Bool) → IsProp (s ≡ t)
bool_set = hlevel

path_trimmed : trim "plans/p1" ≡ "plans/p1"
unfolding trim trim_left trim_right is_space is_empty
path_trimmed = refl

is_plain_record : all_plain_fields plan_record.checkpoint ≡ true
unfolding all_plain_fields
is_plain_record = refl

id_trimmed : (a : VfsArtifact) → Mem a artifacts → (trim a.artifact_id == a.artifact_id) ≡ true
unfolding walk_fields should_externalize_string persist_artifact len lower_is lower_code trim
    trim_left trim_right is_space is_empty
id_trimmed =
    All-Mem (λ a. (trim a.artifact_id == a.artifact_id) ≡ true) (λ _. bool_set _ _) artifacts
      (refl, tt)

id_not_blank : (a : VfsArtifact) → Mem a artifacts → (a.artifact_id == "") ≡ false
unfolding walk_fields should_externalize_string persist_artifact len lower_is lower_code trim
    trim_left trim_right is_space is_empty
id_not_blank = All-Mem (λ a. (a.artifact_id == "") ≡ false) (λ _. bool_set _ _) artifacts (refl, tt)

proper_ids : (a : VfsArtifact) → Mem a artifacts → IsProperId a
proper_ids a m = ((eq_iff (trim a.artifact_id) a.artifact_id).0 (id_trimmed a m), id_not_blank a m)

content_is : (a : VfsArtifact) → Mem a artifacts → (a.content == "a long text") ≡ true
unfolding walk_fields should_externalize_string persist_artifact len lower_is lower_code trim
    trim_left trim_right is_space is_empty
content_is =
    All-Mem (λ a. (a.content == "a long text") ≡ true) (λ _. bool_set _ _) artifacts (refl, tt)

one_content : (a : VfsArtifact) → Mem a artifacts → a.content ≡ "a long text"
one_content a m = (eq_iff a.content "a long text").0 (content_is a m)

one_digest :
    (a b : VfsArtifact)
    → Mem a artifacts
    → Mem b artifacts
    → b.artifact_id ≡ a.artifact_id
    → b.content ≡ a.content
one_digest a b m n same = one_content b n ∙ sym (one_content a m)

read-write_example :
    (q : VfsCheckpointRecord) × (read_checkpoint checksum
        (write_checkpoint same_text digest same_text checksum 7 4 no_store plan_record).0
        plan_record.path
      ≡ found q)
    × (q.checkpoint ≡ plan_record.checkpoint)
    × (q.integrity ≡ (
        if checksum plan_record.checkpoint
          == checksum (walk_fields same_text digest 7 4 plan_record.checkpoint).1
        then "ok"
        else "corrupt"))
read-write_example =
    read-write same_text digest same_text checksum 7 4 no_store plan_record path_trimmed refl
      is_plain_record proper_ids one_digest

-- The example's text is externalised, so its checkpoint is reported as corrupt.
is_reported :
    (checksum plan_record.checkpoint
      == checksum (walk_fields same_text digest 7 4 plan_record.checkpoint).1)
    ≡ false
unfolding walk_fields should_externalize_string persist_artifact len lower_is lower_code trim
    trim_left trim_right is_space is_empty
is_reported = refl

-- ===== src/Vfs/Checkpoint/Laws.antt =====
-- What ReadCheckpoint answers for a checkpoint that was just written.
use mathlib.Core.List.{Mem, mem-cons_self, mem-cons_of_mem}
use sourcevcode_orchestrator.Prelude.{
  true≢false, ℕ, String, List, [], ◌∷◌, Option, some, true, false, ◌≡◌, refl, ap, sym, ◌∙◌, inl,
  inr, arith, eq_self, All, All-map_Mem, trim_left, trim_right, is_space, is_empty, if◌then◌else◌,
  ◌==◌, trim, str_cases, eq_iff, if_cases,
}
use sourcevcode_orchestrator.Domain.Json.{Value, Fields, object}
use sourcevcode_orchestrator.Vfs.Store.{
  VfsArtifact, VfsCheckpointRecord, FileStore, upsert_vfs_artifacts, upsert_vfs_checkpoints,
  get_vfs_checkpoint, artifact_created, checkpoint_created, checkpoint_updated, put_artifact,
  put_checkpoint,
}
use sourcevcode_orchestrator.Vfs.Walk.{ok, walk_fields, walk_hydrate, then_ok}
use sourcevcode_orchestrator.Vfs.Walk.RoundTrip.{
  IsStored, all_plain_fields, hydrate-walk_fields, reference-walk, hydrate-map,
}
use sourcevcode_orchestrator.Vfs.Checkpoint.{
  found, as_map, checked, rehydrated, read_checkpoint, written, write_checkpoint,
}

-- The store has an artifact with the content under the id.
abbrev Holds : FileStore → String → String → Type 0
Holds s id content = (a : VfsArtifact) × (s.vfs_artifacts id ≡ some a) × (a.content ≡ content)

put_artifact-here :
    (now : ℕ) (s : FileStore) (a : VfsArtifact)
    → (trim a.artifact_id == "") ≡ false
    → Holds (put_artifact now s a) a.artifact_id a.content
unfolding put_artifact
put_artifact-here now s a h = (artifact_created now a, rw (h, eq_self) refl, refl)

put_artifact-keeps :
    (now : ℕ) (s : FileStore) (b : VfsArtifact) (id content : String)
    → (b.artifact_id ≡ id → b.content ≡ content)
    → Holds s id content
    → Holds (put_artifact now s b) id content
unfolding put_artifact
put_artifact-keeps now s b id content same (a, e, c) =
    if_cases
      (λ (m : String → Option VfsArtifact).
        (a : VfsArtifact) × (m id ≡ some a) × (a.content ≡ content))
      (trim b.artifact_id == "") (λ _. (a, e, c))
      (λ _. elim (str_cases b.artifact_id id) [
        | inl p ↦ (artifact_created now b, rw (p, eq_self) refl, same p)
        | inr n ↦ (a, ground (arith, e, eq_iff b.artifact_id id), c)
      ])

upsert-keeps :
    (now : ℕ) (l : List VfsArtifact) (s : FileStore) (id content : String)
    → ((b : VfsArtifact) → Mem b l → b.artifact_id ≡ id → b.content ≡ content)
    → Holds s id content
    → Holds (upsert_vfs_artifacts now s l) id content
unfolding upsert_vfs_artifacts
upsert-keeps now [] s id content same h = h
upsert-keeps now (b ∷ l) s id content same h =
    upsert-keeps now l (put_artifact now s b) id content (λ c m. same c (mem-cons_of_mem b m))
      (put_artifact-keeps now s b id content (same b mem-cons_self) h)

upsert-stores :
    (now : ℕ) (l : List VfsArtifact) (s : FileStore)
    → ((a : VfsArtifact) → Mem a l → (trim a.artifact_id == "") ≡ false)
    → ((a b : VfsArtifact)
        → Mem a l
        → Mem b l
        → b.artifact_id ≡ a.artifact_id
        → b.content ≡ a.content)
    → All (λ a. Holds (upsert_vfs_artifacts now s l) a.artifact_id a.content) l
unfolding upsert_vfs_artifacts
upsert-stores now [] s proper same = tt
upsert-stores now (a ∷ l) s proper same = (
  upsert-keeps now l (put_artifact now s a) a.artifact_id a.content
      (λ b m. same a b mem-cons_self (mem-cons_of_mem a m))
      (put_artifact-here now s a (proper a mem-cons_self)),
  upsert-stores now l (put_artifact now s a) (λ b m. proper b (mem-cons_of_mem a m))
      (λ b c m n. same b c (mem-cons_of_mem a m) (mem-cons_of_mem a n)),
)

put_checkpoint-get :
    (now : ℕ) (s : FileStore) (c : VfsCheckpointRecord)
    → (trim c.path == "") ≡ false
    → (put_checkpoint now s c).vfs_checkpoints c.path
      ≡ some (checkpoint_updated (checkpoint_created now c))
unfolding put_checkpoint
put_checkpoint-get now s c h = rw (h, eq_self) refl

read-found :
    (checksum : Fields → String) (s : FileStore) (path : String) (w : VfsCheckpointRecord)
    (v : Value)
    → get_vfs_checkpoint s path ≡ some w
    → walk_hydrate s (object w.checkpoint) ≡ ok v
    → read_checkpoint checksum s path ≡ found (checked checksum w (as_map v))
unfolding read_checkpoint rehydrated
read-found checksum s path w v e h = rw (e, read_checkpoint) (rw (h, rehydrated) refl)

module _ (artifact_uri digest checkpoint_uri : String → String) (checksum : Fields → String)
    (now threshold : ℕ) where
  hydrates :
      (s : FileStore) (fs : Fields)
      → all_plain_fields fs ≡ true
      → All (IsStored s) (walk_fields artifact_uri digest now threshold fs).0
      → walk_hydrate s (object (walk_fields artifact_uri digest now threshold fs).1)
        ≡ ok (object fs)
  hydrates s fs p h =
      hydrate-map s (walk_fields artifact_uri digest now threshold fs).1
        (reference-walk artifact_uri digest now threshold fs p)
      ∙ ap (then_ok object) (hydrate-walk_fields artifact_uri digest now threshold s fs p h)

  IsStored-of :
      (s : FileStore) (a : VfsArtifact)
      → trim a.artifact_id ≡ a.artifact_id
      → (a.artifact_id == "") ≡ false
      → Holds s a.artifact_id a.content
      → IsStored s a
  IsStored-of s a t n (b, e, c) = record {
    not_blank = ap (λ i. i == "") t ∙ n;
    found = b;
    is_found = ap s.vfs_artifacts t ∙ e;
    same_content = c;
  }

  -- The store after a successful WriteCheckpoint.
  store_after : FileStore → VfsCheckpointRecord → FileStore
  store_after s r =
      upsert_vfs_checkpoints now
        (upsert_vfs_artifacts now s (walk_fields artifact_uri digest now threshold r.checkpoint).0)
        (written artifact_uri digest checkpoint_uri checksum now threshold r ∷ [])

  write-after :
      (s : FileStore) (r : VfsCheckpointRecord)
      → (trim r.path == "") ≡ false
      → (write_checkpoint artifact_uri digest checkpoint_uri checksum now threshold s r).0
        ≡ store_after s r
  unfolding write_checkpoint store_after
  write-after s r h =
      if_cases (λ (o : FileStore × Option VfsCheckpointRecord). o.0 ≡ store_after s r)
        (trim r.path == "") (λ e. absurd (true≢false (sym e ∙ h))) (λ _. refl)

  stored_record : VfsCheckpointRecord → VfsCheckpointRecord
  stored_record r =
      checkpoint_updated (
        checkpoint_created now
          (written artifact_uri digest checkpoint_uri checksum now threshold r))

  get-after :
      (s : FileStore) (r : VfsCheckpointRecord)
      → (trim (trim r.path) == "") ≡ false
      → get_vfs_checkpoint (store_after s r) r.path ≡ some (stored_record r)
  unfolding store_after stored_record upsert_vfs_checkpoints written
  get-after s r h =
      put_checkpoint-get now
        (upsert_vfs_artifacts now s (walk_fields artifact_uri digest now threshold r.checkpoint).0)
        (written artifact_uri digest checkpoint_uri checksum now threshold r) h

  artifacts-after :
      (s : FileStore) (r : VfsCheckpointRecord)
      → (store_after s r).vfs_artifacts
        ≡ (upsert_vfs_artifacts now s
            (walk_fields artifact_uri digest now threshold r.checkpoint).0).vfs_artifacts
  unfolding store_after upsert_vfs_checkpoints put_checkpoint
  artifacts-after s r = refl

  -- A checkpoint that was just written is read back with its content as it was given, every externalised text
  -- in its place; and it is reported intact only if the given content has the checksum of the content
  -- that was stored, in which the texts are replaced. The path is neither blank nor surrounded by white
  -- space, no map of the content has the key "$vfs_artifact", the digests of the externalised texts are
  -- neither blank nor surrounded by white space, and two such texts of one digest are equal.
  pub read-write :
      (s : FileStore) (r : VfsCheckpointRecord)
      → trim r.path ≡ r.path
      → (r.path == "") ≡ false
      → all_plain_fields r.checkpoint ≡ true
      → ((a : VfsArtifact)
          → Mem a (walk_fields artifact_uri digest now threshold r.checkpoint).0
          → (trim a.artifact_id ≡ a.artifact_id) × ((a.artifact_id == "") ≡ false))
      → ((a b : VfsArtifact)
          → Mem a (walk_fields artifact_uri digest now threshold r.checkpoint).0
          → Mem b (walk_fields artifact_uri digest now threshold r.checkpoint).0
          → b.artifact_id ≡ a.artifact_id
          → b.content ≡ a.content)
      → (q : VfsCheckpointRecord) × (read_checkpoint checksum
            (write_checkpoint artifact_uri digest checkpoint_uri checksum now threshold s r).0
            r.path
          ≡ found q)
        × (q.checkpoint ≡ r.checkpoint)
        × (q.integrity ≡ (
            if checksum r.checkpoint
              == checksum (walk_fields artifact_uri digest now threshold r.checkpoint).1
            then "ok"
            else "corrupt"))
  unfolding stored_record written as_map checked trim trim_left trim_right is_space is_empty
  read-write s r t n p proper same =
      let artifacts = (walk_fields artifact_uri digest now threshold r.checkpoint).0 in
      let s' = store_after s r in
      let proper_path : (trim r.path == "") ≡ false = ap (λ k. k == "") t ∙ n in
      let holds =
        upsert-stores now artifacts s (λ a m. ap (λ k. k == "") (proper a m).0 ∙ (proper a m).1)
          same in
      let stored =
        All-map_Mem _ (IsStored s') artifacts
          (λ a m (f, e, c). IsStored-of s' a (proper a m).0 (proper a m).1 (
            f,
            ap (λ (v : String → Option VfsArtifact). v a.artifact_id) (artifacts-after s r) ∙ e,
            c,
          ))
          holds in
      let answer =
        read-found checksum s' r.path (stored_record r) (object r.checkpoint)
          (get-after s r (ap (λ k. trim k == "") t ∙ proper_path))
          (hydrates s' r.checkpoint p stored) in
      (
        checked checksum (stored_record r) r.checkpoint,
        ap (λ u. read_checkpoint checksum u r.path) (write-after s r proper_path) ∙ answer,
        refl,
        refl,
      )

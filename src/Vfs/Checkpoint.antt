-- ===== src/Vfs/Checkpoint.antt =====
-- go-core/internal/vfs/manager.go: WriteCheckpoint and ReadCheckpoint, over the file store. `digest` stands for
-- the SHA-256 of a text, `checksum` for that of the JSON encoding of a map, both in hexadecimal;
-- `artifact_uri` and `checkpoint_uri` for the texts of the two storage URIs.
pub mod Laws
mod Tests
use sourcevcode_orchestrator.Prelude.{
  ℕ, String, List, [], ◌∷◌, Option, none, some, Bool, true, false, if◌then◌else◌, ◌==◌, trim, ltb,
}
use sourcevcode_orchestrator.Domain.Json.{Value, Fields, object, end}
use sourcevcode_orchestrator.Vfs.Store.{
  VfsArtifact, VfsCheckpointRecord, FileStore, upsert_vfs_artifacts, upsert_vfs_checkpoints,
  get_vfs_checkpoint,
}
use sourcevcode_orchestrator.Vfs.Walk.{Hydrated, ok, not_found, walk_fields, walk_hydrate}

-- The answer of ReadCheckpoint.
pub data Read : Type 0 where
  missing : Read
  unreadable : String → Read
  found : VfsCheckpointRecord → Read

-- `out, _ := rewritten.(map[string]any)`: nil where the value is no map.
unfoldable pub as_map : Value → Fields
as_map (object fs) = fs
as_map _ = end

unfoldable pub checked : (Fields → String) → VfsCheckpointRecord → Fields → VfsCheckpointRecord
checked checksum r fs = record r {
  checkpoint = fs;
  integrity =
      if checksum fs == r.checksum
      then (if trim r.integrity == "" then "ok" else r.integrity)
      else "corrupt";
}

unfoldable pub rehydrated : (Fields → String) → VfsCheckpointRecord → Hydrated Value → Read
unfolding as_map checked
rehydrated checksum r (not_found id) = unreadable id
rehydrated checksum r (ok v) = found (checked checksum r (as_map v))

unfoldable pub read_checkpoint : (Fields → String) → FileStore → String → Read
unfolding rehydrated
read_checkpoint checksum s path = elim (get_vfs_checkpoint s path) [
  | none ↦ missing
  | some r ↦ rehydrated checksum r (walk_hydrate s (object r.checkpoint))
]

module _ (artifact_uri digest checkpoint_uri : String → String) (checksum : Fields → String)
    (now threshold : ℕ) where
  -- The record as it is stored.
  unfoldable pub written : VfsCheckpointRecord → VfsCheckpointRecord
  written r =
      let replaced = (walk_fields artifact_uri digest now threshold r.checkpoint).1 in
      record r {
        path = trim r.path;
        created_at = if ltb 0 r.created_at then r.created_at else now;
        updated_at = now;
        checkpoint = replaced;
        checksum = checksum replaced;
        integrity = "ok";
        storage_uri = checkpoint_uri (trim r.path);
      }

  -- `none` is the error for a blank path.
  unfoldable pub write_checkpoint :
      FileStore → VfsCheckpointRecord → FileStore × Option VfsCheckpointRecord
  unfolding written
  write_checkpoint s r =
      let artifacts = (walk_fields artifact_uri digest now threshold r.checkpoint).0 in
      if trim r.path == "" then (s, none) else (
        upsert_vfs_checkpoints now (upsert_vfs_artifacts now s artifacts) (written r ∷ []),
        some (written r),
      )

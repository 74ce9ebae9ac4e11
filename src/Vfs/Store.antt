-- ===== src/Vfs/Store.antt =====
-- go-core/internal/state/file_store.go: the tables of artifacts and checkpoints. Nothing ranges over
-- either map. Writing the tables to disk is left out: an upsert here is one whose write succeeds.
use sourcevcode_orchestrator.Prelude.{
  ℕ, String, List, [], ◌∷◌, Option, some, if◌then◌else◌, ◌==◌, trim, update, ltb,
}
use sourcevcode_orchestrator.Domain.Json.{Fields}

pub record VfsArtifact : Type 0 where
  pub artifact_id : String
  pub storage_uri : String
  pub sha256 : String
  pub size_bytes : ℕ
  pub mime_type : String
  pub content : String
  pub metadata : Fields
  pub created_at : ℕ

pub record VfsCheckpointRecord : Type 0 where
  pub path : String
  pub task_id : String
  pub agent_id : String
  pub checkpoint : Fields
  pub checksum : String
  pub integrity : String
  pub metadata : Fields
  pub storage_uri : String
  pub created_at : ℕ
  pub updated_at : ℕ

pub record FileStore : Type 0 where
  pub vfs_artifacts : String → Option VfsArtifact
  pub vfs_checkpoints : String → Option VfsCheckpointRecord

abbrev pub artifact_created : ℕ → VfsArtifact → VfsArtifact
artifact_created now a = record a { created_at = if ltb 0 a.created_at then a.created_at else now }

abbrev pub checkpoint_created : ℕ → VfsCheckpointRecord → VfsCheckpointRecord
checkpoint_created now c = record c {
  created_at = if ltb 0 c.created_at then c.created_at else now;
}

abbrev pub checkpoint_updated : VfsCheckpointRecord → VfsCheckpointRecord
checkpoint_updated c = record c {
  updated_at = if ltb 0 c.updated_at then c.updated_at else c.created_at;
}

unfoldable pub put_artifact : ℕ → FileStore → VfsArtifact → FileStore
put_artifact now s a = record s {
  vfs_artifacts =
      if trim a.artifact_id == ""
      then s.vfs_artifacts
      else update s.vfs_artifacts a.artifact_id (some (artifact_created now a));
}

unfoldable pub upsert_vfs_artifacts : ℕ → FileStore → List VfsArtifact → FileStore
unfolding put_artifact
upsert_vfs_artifacts now s [] = s
upsert_vfs_artifacts now s (a ∷ l) = upsert_vfs_artifacts now (put_artifact now s a) l

abbrev pub get_vfs_artifact : FileStore → String → Option VfsArtifact
get_vfs_artifact s id = s.vfs_artifacts (trim id)

unfoldable pub put_checkpoint : ℕ → FileStore → VfsCheckpointRecord → FileStore
put_checkpoint now s c = record s {
  vfs_checkpoints =
      if trim c.path == ""
      then s.vfs_checkpoints
      else update s.vfs_checkpoints c.path (some (checkpoint_updated (checkpoint_created now c)));
}

unfoldable pub upsert_vfs_checkpoints : ℕ → FileStore → List VfsCheckpointRecord → FileStore
unfolding put_checkpoint
upsert_vfs_checkpoints now s [] = s
upsert_vfs_checkpoints now s (c ∷ l) = upsert_vfs_checkpoints now (put_checkpoint now s c) l

abbrev pub get_vfs_checkpoint : FileStore → String → Option VfsCheckpointRecord
get_vfs_checkpoint s path = s.vfs_checkpoints (trim path)

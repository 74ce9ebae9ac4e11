-- ===== src/Vfs.antt =====
-- go-core/internal/vfs/manager.go: checkpoints whose long texts are kept apart, as artifacts under the digest
-- of their content, and the part of go-core/internal/state/file_store.go that stores both.
pub mod Store
pub mod Walk
pub mod Checkpoint

-- ===== src/Domain.antt =====
-- The data types of go-core/internal/domain that the modelled components share.
pub mod Json
pub mod Task
pub mod Plan
pub mod Envelope

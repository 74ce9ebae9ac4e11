-- ===== src/Runtime.antt =====
-- go-core/internal/kernel: what is known of the providers at run time, and how much runs at once.
pub mod Probes
pub mod Profile
pub mod Registry

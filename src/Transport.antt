-- ===== src/Transport.antt =====
-- go-core/internal/transport: the frames, the sessions and the dispatcher of the streaming protocol.
pub mod Protocol
pub mod Session
pub mod Dispatcher

-- ===== src/Transport.antt =====
-- src/xtr_messenger/transport/: what sends and receives envelopes, in the modules below.
pub mod Sender
pub mod Routes
pub mod Discovery
pub mod Factories
pub mod Sync
pub mod Serialization
pub mod InMemory
pub mod Options
pub mod Chained

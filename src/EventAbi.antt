-- ===== src/EventAbi.antt =====
-- api/eventabi/types.go and internal/runtime/eventabi/gateway.go: event records, control signals,
-- their validation and the runtime gateway that normalizes batches of them.
pub mod Types
pub mod SchemaVersion
pub mod Emitters
pub mod Signal
pub mod Record
pub mod Gateway

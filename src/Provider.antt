-- ===== src/Provider.antt =====
-- internal/runtime/provider: the contracts of provider adapters, their catalog, and the controller that
-- invokes them with retries and switches.
pub mod Contracts
pub mod Catalog
pub mod Requests
pub mod Invocation

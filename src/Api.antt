-- ===== src/Api.antt =====
-- The HTTP endpoints (wallet_ledger/api): requests are validated by their schemas, the services run,
-- their events are published, and answers and errors are serialised.
pub mod Schemas
pub mod Serializers
pub mod Wiring
pub mod Views
pub mod Serving
pub mod Transferring
pub mod Reversing
pub mod Amounts

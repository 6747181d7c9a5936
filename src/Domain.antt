-- ===== src/Domain.antt =====
-- The domain layer (wallet_ledger/domain): enumerations, errors, money, aggregates and events. It
-- is pure, and the other layers build on it.
pub mod Enums
pub mod Errors
pub mod Decimals
pub mod Money
pub mod Aggregates
pub mod Events

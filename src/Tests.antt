-- ===== src/Tests.antt =====
-- Concrete runs: states to run on, and the theorems at inputs that meet their hypotheses.
mod Fixtures
mod TransferRuns
mod PhaseRuns
mod ServiceRuns
mod LedgerRuns
mod WebhookRuns
mod HistoryRuns
mod ApiRuns
mod SeedRuns
mod LaterRuns
mod StaleRuns
mod Marshmallow

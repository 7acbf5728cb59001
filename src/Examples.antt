-- ===== src/Examples.antt =====
-- The theorems at concrete inputs, and runs of the definitions.
mod Whole
mod NettingRuns
mod ServiceRuns
mod YieldRuns
mod BusRuns
mod Stock
mod RegistryRuns
mod AnalyticsRuns
mod AuthRuns

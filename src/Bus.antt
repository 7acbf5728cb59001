-- ===== src/Bus.antt =====
-- The internal event bus (src/bond_accounting/event_bus).
pub mod Message
pub mod Subscription
pub mod State
pub mod Step

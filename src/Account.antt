-- ===== src/Account.antt =====
-- custom_components/carnet_scolaire/account.py and coordinator.py: the collection of one tier, on the
-- scheduler, the snapshots that are published and the events that are fired.
pub mod State
pub mod Collect
pub mod Batch
pub mod Fired
pub mod Settled
pub mod Published
pub mod Kept
pub mod Frame
pub mod Others
pub mod Boosts
pub mod Deeds
pub mod Tests

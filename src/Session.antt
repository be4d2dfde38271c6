-- ===== src/Session.antt =====
-- custom_components/carnet_scolaire/session.py: when the session manager logs in, what it makes of each
-- answer, and what it concludes on how long a session lives.
pub mod State
pub mod Policy
pub mod Measure
pub mod Login
pub mod Run
pub mod Counts
pub mod Bounds
pub mod Invariant
pub mod Founded
pub mod Held
pub mod Batches
pub mod Stable
pub mod Evidence
pub mod Timeouts
pub mod Settled
pub mod Expiries
pub mod Tests

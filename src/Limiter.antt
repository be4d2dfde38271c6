-- ===== src/Limiter.antt =====
-- custom_components/carnet_scolaire/ratelimit.py
pub mod State
pub mod Layers
pub mod Quiet
pub mod Holds
pub mod Calls
pub mod Logins
pub mod Handover
pub mod Effect
pub mod HoldLaws
pub mod HandoverLaws
pub mod HandoverErrors
pub mod DayLaws
pub mod LoginLaws
pub mod Bucket
pub mod Verdicts
pub mod Admission
mod Tests

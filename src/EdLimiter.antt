-- ===== src/EdLimiter.antt =====
-- custom_components/carnet_scolaire/connectors/ecoledirecte/ed_limiter.py
pub mod State
pub mod Calls
pub mod Logins
pub mod Handover
pub mod Holds
pub mod Spacing
pub mod Waiting
pub mod LoginCap
pub mod Takeover
mod Tests

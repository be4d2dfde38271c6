-- ===== src/Scheduler.antt =====
-- custom_components/carnet_scolaire/scheduler.py
pub mod State
pub mod Outcomes
pub mod Due
pub mod Deadlines
pub mod Presses
pub mod Order
pub mod Keys
pub mod Membership
mod Tests

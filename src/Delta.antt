-- ===== src/Delta.antt =====
-- custom_components/carnet_scolaire/delta.py
pub mod Context
pub mod Detector
pub mod Collections
pub mod Threads
pub mod Lessons
pub mod Detection
pub mod History
pub mod Refinement
pub mod Signatures
pub mod Newest
pub mod Tests

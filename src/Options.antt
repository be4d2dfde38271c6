-- ===== src/Options.antt =====
-- custom_components/carnet_scolaire/options.py and const.py: the stored options, and the limiter's
-- configuration that is built from them.
pub mod Read
pub mod Config
pub mod Clamp
pub mod Ranges
pub mod Tests

-- ===== src/Config.antt =====
-- src/ezsql/config.py: the settings, how they are read, and what holds of what is read.
pub mod Fields
pub mod Validate
pub mod Relations
pub mod Ranges
pub mod Bounds

-- ===== src/Soc.antt =====
-- app/soc: severity, detection, the block engine and the language model's output.
pub mod Detect
pub mod Soar
pub mod MitreCti
pub mod Schema
pub mod Cycle
pub mod Alerts

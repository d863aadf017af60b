-- ===== src/Ilc.antt =====
-- Namespace ILC: include/ILC and src/ILC.
pub mod BusList
pub mod SensorMonitor

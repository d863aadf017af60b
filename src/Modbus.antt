-- ===== src/Modbus.antt =====
-- namespace Modbus: include/Modbus and src/Modbus.
pub mod Exceptions
pub mod Crc
pub mod Buffer
pub mod Parser
pub mod BusList
pub mod Handler
pub mod Floats

-- ===== src/Tests.antt =====
-- Concrete runs, and the theorems at concrete inputs.
mod Modbus
mod Bus
mod Fpga
mod Mpu
mod Ilc
mod Firmware
mod Legacy
mod Tasks
mod Arrays
mod Cli
mod FpgaCli
mod Programming
mod Threads
mod Transports
mod Pids

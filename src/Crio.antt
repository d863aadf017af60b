-- ===== src/Crio.antt =====
-- namespace LSST::cRIO: include/cRIO and src/LSST/cRIO.
pub mod Fifo
pub mod Fpga
pub mod FpgaCliApp
pub mod ArrayUtilities
pub mod Mpu
pub mod ThermalIlc
pub mod ForceIlc
pub mod IntelHex
pub mod ModbusBuffer
pub mod PrintIlc
pub mod SimulatedIlc
pub mod TaskQueue
pub mod CliApp
pub mod ControllerThread
pub mod Thread

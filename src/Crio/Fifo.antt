-- ===== src/Crio/Fifo.antt =====
-- namespace FIFO of include/cRIO/ModbusBuffer.h: the commands of the FIFOs to and from the FPGA, in the
-- upper four bits of a word.
use ts_c_riocpp.Common.{ℕ}

abbrev pub write : ℕ
write = 0x1000

abbrev pub tx_frameend : ℕ
tx_frameend = 0x20DA

abbrev pub tx_timestamp : ℕ
tx_timestamp = 0x3000

abbrev pub delay : ℕ
delay = 0x4000

abbrev pub long_delay : ℕ
long_delay = 0x5000

abbrev pub tx_wait_rx : ℕ
tx_wait_rx = 0x6000

abbrev pub tx_irqtrigger : ℕ
tx_irqtrigger = 0x7000

abbrev pub tx_wait_trigger : ℕ
tx_wait_trigger = 0x8000

abbrev pub tx_wait_long_rx : ℕ
tx_wait_long_rx = 0x9000

abbrev pub rx_endframe : ℕ
rx_endframe = 0xA000

abbrev pub rx_timestamp : ℕ
rx_timestamp = 0xB000

abbrev pub cmd_mask : ℕ
cmd_mask = 0xF000

abbrev pub tx_mask : ℕ
tx_mask = 0x1200

abbrev pub rx_mask : ℕ
rx_mask = 0x9200

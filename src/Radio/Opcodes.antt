-- ===== src/Radio/Opcodes.antt =====
-- cc2520.h and radio_config.h: SPI commands and default register values.
use linux_cc2520_driver.Prelude.{ℕ}

abbrev pub cmd_memory_write : ℕ
cmd_memory_write = 0x20

abbrev pub cmd_rxbuf : ℕ
cmd_rxbuf = 0x30

abbrev pub cmd_txbuf : ℕ
cmd_txbuf = 0x3A

abbrev pub cmd_srxon : ℕ
cmd_srxon = 0x42

abbrev pub cmd_stxon : ℕ
cmd_stxon = 0x43

abbrev pub cmd_srfoff : ℕ
cmd_srfoff = 0x45

abbrev pub cmd_sflushrx : ℕ
cmd_sflushrx = 0x47

abbrev pub cmd_sflushtx : ℕ
cmd_sflushtx = 0x48

abbrev pub cmd_register_read : ℕ
cmd_register_read = 0x80

abbrev pub cmd_register_write : ℕ
cmd_register_write = 0xC0

-- highest address in FREG
abbrev pub freg_mask : ℕ
freg_mask = 0x3F

abbrev pub mem_addr_base : ℕ
mem_addr_base = 0x3EA

-- The unions that have a value only.
abbrev pub rxctrl_default : ℕ
rxctrl_default = 0x3F

abbrev pub fsctrl_default : ℕ
fsctrl_default = 0x5A

abbrev pub fscal1_default : ℕ
fscal1_default = 0x2B

abbrev pub agcctrl1_default : ℕ
agcctrl1_default = 0x11

abbrev pub adctest0_default : ℕ
adctest0_default = 0x10

abbrev pub adctest1_default : ℕ
adctest1_default = 0x0E

abbrev pub adctest2_default : ℕ
adctest2_default = 0x03

-- ===== src/Radio/RegisterMap.antt =====
-- cc2520.h: the registers of the chip and their addresses.
use linux_cc2520_driver.Prelude.{ℕ}

-- enum cc2520_register_enums
pub data Register : Type 0 where
  frmfilt0 frmfilt1 srcmatch srcshorten0 srcshorten1 srcshorten2 srcexten0 srcexten1 : Register
  srcexten2 frmctrl0 frmctrl1 rxenable0 rxenable1 excflag0 excflag1 excflag2 excmaska0 : Register
  excmaska1 excmaska2 excmaskb0 excmaskb1 excmaskb2 excbindx0 excbindx1 excbindy0 : Register
  excbindy1 gpioctrl0 gpioctrl1 gpioctrl2 gpioctrl3 gpioctrl4 gpioctrl5 gpiopolarity : Register
  gpioctrl dpucon dpustat freqctrl freqtune txpower txctrl fsmstat0 fsmstat1 fifopctrl : Register
  fsmctrl ccactrl0 ccactrl1 rssi rssistat rxfirst rxfifocnt txfifocnt chipid version : Register
  extclock mdmctrl0 mdmctrl1 freqest rxctrl fsctrl fscal0 fscal1 fscal2 fscal3 agcctrl0 : Register
  agcctrl1 agcctrl2 agcctrl3 adctest0 adctest1 adctest2 mdmtest0 mdmtest1 dactest0 : Register
  dactest1 atest dactest2 ptest0 ptest1 reserved dpubist actbist rambist : Register

abbrev pub address : Register → ℕ
address frmfilt0 = 0x00
address frmfilt1 = 0x01
address srcmatch = 0x02
address srcshorten0 = 0x04
address srcshorten1 = 0x05
address srcshorten2 = 0x06
address srcexten0 = 0x08
address srcexten1 = 0x09
address srcexten2 = 0x0A
address frmctrl0 = 0x0C
address frmctrl1 = 0x0D
address rxenable0 = 0x0E
address rxenable1 = 0x0F
address excflag0 = 0x10
address excflag1 = 0x11
address excflag2 = 0x12
address excmaska0 = 0x14
address excmaska1 = 0x15
address excmaska2 = 0x16
address excmaskb0 = 0x18
address excmaskb1 = 0x19
address excmaskb2 = 0x1A
address excbindx0 = 0x1C
address excbindx1 = 0x1D
address excbindy0 = 0x1E
address excbindy1 = 0x1F
address gpioctrl0 = 0x20
address gpioctrl1 = 0x21
address gpioctrl2 = 0x22
address gpioctrl3 = 0x23
address gpioctrl4 = 0x24
address gpioctrl5 = 0x25
address gpiopolarity = 0x26
address gpioctrl = 0x28
address dpucon = 0x2A
address dpustat = 0x2C
address freqctrl = 0x2E
address freqtune = 0x2F
address txpower = 0x30
address txctrl = 0x31
address fsmstat0 = 0x32
address fsmstat1 = 0x33
address fifopctrl = 0x34
address fsmctrl = 0x35
address ccactrl0 = 0x36
address ccactrl1 = 0x37
address rssi = 0x38
address rssistat = 0x39
address rxfirst = 0x3C
address rxfifocnt = 0x3E
address txfifocnt = 0x3F
address chipid = 0x40
address version = 0x42
address extclock = 0x44
address mdmctrl0 = 0x46
address mdmctrl1 = 0x47
address freqest = 0x48
address rxctrl = 0x4A
address fsctrl = 0x4C
address fscal0 = 0x4E
address fscal1 = 0x4F
address fscal2 = 0x50
address fscal3 = 0x51
address agcctrl0 = 0x52
address agcctrl1 = 0x53
address agcctrl2 = 0x54
address agcctrl3 = 0x55
address adctest0 = 0x56
address adctest1 = 0x57
address adctest2 = 0x58
address mdmtest0 = 0x5A
address mdmtest1 = 0x5B
address dactest0 = 0x5C
address dactest1 = 0x5D
address atest = 0x5E
address dactest2 = 0x5F
address ptest0 = 0x60
address ptest1 = 0x61
address reserved = 0x62
address dpubist = 0x7A
address actbist = 0x7C
address rambist = 0x7E

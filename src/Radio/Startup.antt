-- ===== src/Radio/Startup.antt =====
-- The registers of the chip after the driver has configured it.
use linux_cc2520_driver.Prelude.{
  ℕ, ◌≡◌, refl, Option, none, some, List, [], ◌∷◌, ok, ◌==◌, if◌then◌else◌, arith,
}
use linux_cc2520_driver.Radio.State.{Radio, RadioEffect, gpio_reset, udelay}
use linux_cc2520_driver.Radio.Config.{write_register, default_writes, start}
use linux_cc2520_driver.Radio.Unions.{pack}
use linux_cc2520_driver.Radio.RegisterMap.{
  Register, address, txpower, ccactrl0, mdmctrl0, mdmctrl1, rxctrl, fsctrl, fscal1, agcctrl1,
  adctest0, adctest1, adctest2, fifopctrl, frmctrl0, frmfilt1, srcmatch,
}
use linux_cc2520_driver.Radio.Registers.{written}

-- The chip's registers by their addresses, after a message and after a sequence of messages.
abbrev pub store : Option (ℕ × ℕ) → (ℕ → ℕ) → ℕ → ℕ
store none chip a = chip a
store (some (place, value)) chip a = if place == a then value else chip a

-- `reset` is what the registers hold after the chip's RESET pin has been low.
abbrev pub effect : (ℕ → ℕ) → RadioEffect → (ℕ → ℕ) → ℕ → ℕ
effect reset (gpio_reset value) chip = if value == 0 then reset else chip
effect reset e chip = store (written e) chip

abbrev pub registers : (ℕ → ℕ) → List RadioEffect → (ℕ → ℕ) → ℕ → ℕ
registers reset [] chip = chip
registers reset (e ∷ es) chip = registers reset es (effect reset e chip)

-- The driver's settings, as bytes: the settings that the data sheet recommends (RXCTRL to ADCTEST2 and
-- TXPOWER), checksums by the chip (FRMCTRL0), and FIFOP at the end of a frame (FIFOPCTRL).
abbrev pub configured : Register → ℕ → ℕ
configured txpower before = 0x32
configured ccactrl0 before = 0x1A
configured mdmctrl0 before = 0x85
configured mdmctrl1 before = 0x14
configured rxctrl before = 0x3F
configured fsctrl before = 0x5A
configured fscal1 before = 0x2B
configured agcctrl1 before = 0x11
configured adctest0 before = 0x10
configured adctest1 before = 0x0E
configured adctest2 before = 0x03
configured fifopctrl before = 0x7F
configured frmctrl0 before = 0x40
configured frmfilt1 before = 0xF8
configured srcmatch before = 0x06
configured _ before = before

pub start-effects :
    (r : Radio) {r' : Radio} {es : List RadioEffect}
    → start r ≡ ok (r', es)
    → es ≡ gpio_reset 0 ∷ udelay 200 ∷ gpio_reset 1 ∷ udelay 200 ∷ default_writes
unfolding start
start-effects r e = ground (arith, e)

default_writes-registers :
    (reset chip : ℕ → ℕ) (reg : Register)
    → registers reset default_writes chip (address reg) ≡ configured reg (chip (address reg))
unfolding default_writes write_register pack
default_writes-registers reset chip txpower = refl
default_writes-registers reset chip reg = refl

-- Whatever the chip's registers held before, and whatever a reset of the chip leaves in them: when
-- `cc2520_radio_start` has returned, each of the fifteen registers that it configures holds the byte of
-- its bit fields, and every other register of cc2520.h holds what the reset has left there; FRMFILT0,
-- for which radio_config.h has a default, among them.
pub start-registers :
    (reset chip : ℕ → ℕ) (r : Radio) {r' : Radio} {es : List RadioEffect}
    → start r ≡ ok (r', es)
    → (reg : Register)
    → registers reset es chip (address reg) ≡ configured reg (reset (address reg))
start-registers reset chip r e reg =
    rw (start-effects r e) (default_writes-registers reset reset reg)

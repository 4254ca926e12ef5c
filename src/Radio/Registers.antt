-- ===== src/Radio/Registers.antt =====
-- What the chip makes of the register writes, after the CC2520 data sheet's instruction set.
use Prim.Native.Nat.{bit_or}
use linux_cc2520_driver.Prelude.{
  ℕ, zero, suc, ◌+◌, ◌-◌, ◌*◌, ◌%◌, ◌≤◌, ◌<◌, ◌≡◌, refl, Bool, true, ◌&&◌, Option, none, some, List,
  [], ◌∷◌, leb, ◌==◌, ==_iff, if◌then◌else◌, Bool-cases, inl, inr, arith,
}
use linux_cc2520_driver.Radio.RegisterMap
use linux_cc2520_driver.Radio.RegisterMap.{address}
use linux_cc2520_driver.Radio.State.{Radio, RadioEffect, spi_sync}
use linux_cc2520_driver.Radio.Config.{write_register, freq, set_channel}

-- REGWR carries a register address below 0x40 in its low bits; MEMWR of a page-0 address names it in
-- the second byte. The result is the address written and the value.
abbrev pub decode : List ℕ → Option (ℕ × ℕ)
decode (op ∷ value ∷ []) = if leb 0xC0 op then some (op - 0xC0, value) else none
decode (op ∷ reg ∷ value ∷ []) = if op == 0x20 then some (reg, value) else none
decode _ = none

abbrev pub written : RadioEffect → Option (ℕ × ℕ)
written (spi_sync (bytes ∷ [])) = decode bytes
written _ = none

all_below : ℕ → (ℕ → Bool) → Bool
all_below zero p = true
all_below (suc n) p = p n && all_below n p

all_below-holds : (n : ℕ) (p : ℕ → Bool) (x : ℕ) → all_below n p ≡ true → x < n → p x ≡ true
unfolding all_below
all_below-holds zero p x h lt = absurd (omega arith)
all_below-holds (suc n) p x h lt = ground (arith, all_below-holds n p x)

opcode_table : all_below 64 (λ reg. bit_or 0xC0 reg == 0xC0 + reg) ≡ true
unfolding all_below
opcode_table = refl

pub opcode_lem : (reg : ℕ) → reg ≤ 0x3F → bit_or 0xC0 reg ≡ 0xC0 + reg
opcode_lem reg h =
    (==_iff _ _).0
      (all_below-holds 64 (λ reg. bit_or 0xC0 reg == 0xC0 + reg) reg opcode_table (omega arith))

-- Every register, in either address range, is the one the chip writes, with the value given.
pub write_register-written :
    (reg value : ℕ) → written (write_register reg value) ≡ some (reg, value)
unfolding write_register
write_register-written reg value = elim (Bool-cases (leb reg 0x3F)) [
  | inl low ↦ ground (arith, opcode_lem reg)
  | inr high ↦ ground arith
]

-- Setting a channel of the 2450 MHz band stores it and writes one register, FREQCTRL, with the value
-- for the channel's centre frequency, 2405 + 5 (channel - 11) MHz, of which the chip adds 2394.
pub set_channel-frequency :
    (r : Radio) (channel : ℕ)
    → 11 ≤ channel
    → channel ≤ 26
    → (value : ℕ) × (e : RadioEffect) × (set_channel r channel
        ≡ (record r { channel = channel }, e ∷ []))
      × (written e ≡ some (0x2E, value))
      × (2394 + value ≡ 2405 + 5 * (channel - 11))
unfolding set_channel
set_channel-frequency r channel lo hi = (
  freq channel,
  write_register (address RegisterMap.freqctrl) (freq channel),
  (let small : channel % 256 ≡ channel = omega arith in rw small),
  write_register-written (address RegisterMap.freqctrl) (freq channel),
  omega arith,
)

-- ===== src/Radio/Config.antt =====
-- Register and memory writes over SPI, the settings, and switching the radio on and off.
-- `tx_buf` is rewritten for each synchronous message, so only the message's bytes are kept.
use Prim.Native.Nat.{bit_or}
use linux_cc2520_driver.Prelude.{
  ℕ, zero, suc, ◌+◌, ◌-◌, ◌*◌, ◌/◌, ◌%◌, ◌^◌, List, [], ◌∷◌, ◌++◌, ok, ◌>>=◌, leb, if◌then◌else◌,
}
use linux_cc2520_driver.Radio.Opcodes
use linux_cc2520_driver.Radio.RegisterMap
use linux_cc2520_driver.Radio.RegisterMap.{address}
use linux_cc2520_driver.Radio.Unions.{
  pack, frmctrl0_fields, frmctrl0_default, txpower_fields, txpower_default, ccactrl0_fields,
  ccactrl0_default, mdmctrl0_fields, mdmctrl0_default, mdmctrl1_fields, mdmctrl1_default,
  fifopctrl_fields, fifopctrl_default, frmfilt1_fields, frmfilt1_default, srcmatch_fields,
  srcmatch_default,
}
use linux_cc2520_driver.Radio.State.{
  Radio, config, RadioEffect, spi_sync, gpio_reset, udelay, RadioHandled, lock, unlock,
}

-- `cc2520_radio_writeRegister`
unfoldable pub write_register : ℕ → ℕ → RadioEffect
write_register reg value = spi_sync (
    (if leb reg Opcodes.freg_mask
      then bit_or Opcodes.cmd_register_write reg ∷ value ∷ []
      else Opcodes.cmd_memory_write ∷ reg ∷ value ∷ [])
    ∷ [])

-- `cc2520_radio_writeMemory`, for all the bytes of `value`
unfoldable pub write_memory : ℕ → List ℕ → RadioEffect
write_memory mem_addr value =
    spi_sync
      ((bit_or Opcodes.cmd_memory_write (mem_addr / 2 ^ 8 % 256) ∷ (mem_addr % 256) ∷ value) ∷ [])

-- `cc2520_radio_strobe`; no caller uses the status that it returns.
unfoldable pub strobe : ℕ → RadioEffect
strobe cmd = spi_sync ((cmd ∷ []) ∷ [])

-- `freqctrl.f.freq = 11 + 5 * (channel - 11)`: seven bits of an `int` that may be negative, to which
-- 5 * 128 is added.
unfoldable pub freq : ℕ → ℕ
freq channel = (11 + 5 * (channel + 128 - 11)) % 128

-- `channel` is a `u8`; bit 7 of `cc2520_freqctrl_default` is 0.
unfoldable pub set_channel : Radio → ℕ → Radio × List RadioEffect
unfolding write_register freq
set_channel r new_channel =
    let channel = new_channel % 256 in
    (
      record r { channel = channel },
      write_register (address RegisterMap.freqctrl) (freq channel) ∷ [],
    )

-- `memcpy(addr_mem, &extended_addr, 8)` on a little-endian machine
unfoldable pub low_bytes : ℕ → ℕ → List ℕ
low_bytes zero x = []
low_bytes (suc n) x = (x % 256) ∷ low_bytes n (x / 256)

unfoldable pub addr_mem : ℕ → ℕ → ℕ → List ℕ
unfolding low_bytes
addr_mem short_addr extended_addr pan_id =
    low_bytes 8 extended_addr
    ++ (pan_id % 256)
      ∷ (pan_id / 2 ^ 8 % 256)
      ∷ (short_addr % 256)
      ∷ (short_addr / 2 ^ 8 % 256)
      ∷ []

unfoldable pub set_address : Radio → ℕ → ℕ → ℕ → Radio × List RadioEffect
unfolding write_memory addr_mem
set_address r new_short_addr new_extended_addr new_pan_id = (
  record r { short_addr = new_short_addr; extended_addr = new_extended_addr; pan_id = new_pan_id },
  write_memory Opcodes.mem_addr_base (addr_mem new_short_addr new_extended_addr new_pan_id) ∷ [],
)

unfoldable pub set_txpower : Radio → ℕ → Radio × List RadioEffect
unfolding write_register
set_txpower r power = (r, write_register (address RegisterMap.txpower) (power % 256) ∷ [])

-- The register writes of `cc2520_radio_start`, in order.
unfoldable pub default_writes : List RadioEffect
unfolding write_register pack
default_writes =
    write_register (address RegisterMap.txpower) (pack (txpower_fields txpower_default))
    ∷ write_register (address RegisterMap.ccactrl0) (pack (ccactrl0_fields ccactrl0_default))
    ∷ write_register (address RegisterMap.mdmctrl0) (pack (mdmctrl0_fields mdmctrl0_default))
    ∷ write_register (address RegisterMap.mdmctrl1) (pack (mdmctrl1_fields mdmctrl1_default))
    ∷ write_register (address RegisterMap.rxctrl) Opcodes.rxctrl_default
    ∷ write_register (address RegisterMap.fsctrl) Opcodes.fsctrl_default
    ∷ write_register (address RegisterMap.fscal1) Opcodes.fscal1_default
    ∷ write_register (address RegisterMap.agcctrl1) Opcodes.agcctrl1_default
    ∷ write_register (address RegisterMap.adctest0) Opcodes.adctest0_default
    ∷ write_register (address RegisterMap.adctest1) Opcodes.adctest1_default
    ∷ write_register (address RegisterMap.adctest2) Opcodes.adctest2_default
    ∷ write_register (address RegisterMap.fifopctrl) (pack (fifopctrl_fields fifopctrl_default))
    ∷ write_register (address RegisterMap.frmctrl0) (pack (frmctrl0_fields frmctrl0_default))
    ∷ write_register (address RegisterMap.frmfilt1) (pack (frmfilt1_fields frmfilt1_default))
    ∷ write_register (address RegisterMap.srcmatch) (pack (srcmatch_fields srcmatch_default))
    ∷ []

-- `cc2520_radio_start`, `cc2520_radio_on` and `cc2520_radio_off` take the lock, send what the functions
-- named `_held` give, and release it. The messages go by `spi_sync`, which sleeps, so that other handlers
-- run while the lock is held (Radio/Held is about them); each is here whole, with nothing in between.
unfoldable pub start_held : Radio → Radio × List RadioEffect
unfolding default_writes
start_held r = (r, gpio_reset 0 ∷ udelay 200 ∷ gpio_reset 1 ∷ udelay 200 ∷ default_writes)

-- CC2520_CHANNEL_MASK keeps five bits.
unfoldable pub on_held : Radio → Radio × List RadioEffect
unfolding set_channel set_address strobe
on_held r =
    let (tuned, tune) = set_channel r (r.channel % 2 ^ 5) in
    let (named, name) = set_address tuned tuned.short_addr tuned.extended_addr tuned.pan_id in
    (named, tune ++ (name ++ strobe Opcodes.cmd_srxon ∷ []))

unfoldable pub off_held : Radio → Radio × List RadioEffect
unfolding strobe
off_held r = (r, strobe Opcodes.cmd_srfoff ∷ [])

unfoldable pub start : Radio → RadioHandled
unfolding start_held lock unlock
start r = do r' ← lock r config; let (held, es) = start_held r'; ok (unlock held, es)

unfoldable pub on : Radio → RadioHandled
unfolding on_held lock unlock
on r = do r' ← lock r config; let (held, es) = on_held r'; ok (unlock held, es)

unfoldable pub off : Radio → RadioHandled
unfolding off_held lock unlock
off r = do r' ← lock r config; let (held, es) = off_held r'; ok (unlock held, es)

-- ===== src/Radio/Address.antt =====
-- The addresses as the chip's RAM holds them.
use linux_cc2520_driver.Prelude.{
  ℕ, ◌+◌, ◌*◌, ◌%◌, ◌^◌, ◌<◌, ◌≡◌, refl, Option, none, some, List, [], ◌∷◌, length, take, drop,
  arith,
}
use linux_cc2520_driver.Packet.{of_bytes}
use linux_cc2520_driver.Radio.State.{Radio, RadioEffect, spi_sync}
use linux_cc2520_driver.Radio.Config.{addr_mem, set_address}

-- MEMWR carries the high bits of a RAM address in the low half of its opcode 0x20 and the low byte
-- next; the bytes that follow go to consecutive addresses.
abbrev pub ram_write : RadioEffect → Option (ℕ × List ℕ)
ram_write (spi_sync ((op ∷ low ∷ value) ∷ [])) = some (256 * (op % 16) + low, value)
ram_write _ = none

-- The chip's local address block, from 0x3EA on, little-endian: extended address, PAN, short address.
pub record LocalAddress (block : List ℕ) (short_addr extended_addr pan_id : ℕ) : Type 0 where
  pub size : length block ≡ 12
  pub extended_field : of_bytes (take 8 block) ≡ extended_addr
  pub pan_field : of_bytes (take 2 (drop 8 block)) ≡ pan_id
  pub short_field : of_bytes (take 2 (drop 10 block)) ≡ short_addr

addr_mem-LocalAddress :
    (short_addr extended_addr pan_id : ℕ)
    → short_addr < 2 ^ 16
    → extended_addr < 2 ^ 64
    → pan_id < 2 ^ 16
    → LocalAddress (addr_mem short_addr extended_addr pan_id) short_addr extended_addr pan_id
unfolding addr_mem of_bytes
addr_mem-LocalAddress s e p hs he hp = omega arith

-- Setting the addresses stores them and writes one block of RAM, at 0x3EA, from which the chip reads
-- back the short address, the extended address and the PAN that were given.
pub set_address-LocalAddress :
    (r : Radio) (short_addr extended_addr pan_id : ℕ)
    → short_addr < 2 ^ 16
    → extended_addr < 2 ^ 64
    → pan_id < 2 ^ 16
    → (block : List ℕ) × (e : RadioEffect) × (set_address r short_addr extended_addr pan_id ≡ (
      record r { short_addr = short_addr; extended_addr = extended_addr; pan_id = pan_id },
      e ∷ [],
    ))
      × (ram_write e ≡ some (0x3EA, block))
      × LocalAddress block short_addr extended_addr pan_id
unfolding set_address
set_address-LocalAddress r s e p hs he hp =
    (addr_mem s e p, _, refl, refl, addr_mem-LocalAddress s e p hs he hp)

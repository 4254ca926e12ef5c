-- ===== src/Radio/Shared.antt =====
-- radio.c: the static `msg`, `tsfer` to `tsfer4` and `tx_buf`, which all messages of the transmit engine
-- and of the settings share. The bus reads a message's bytes from `tx_buf`, and its callback from `msg`,
-- when it is through with it, not when it is handed over.
pub mod Layout
pub mod World
pub mod Fits
pub mod Owned
pub mod Lost
mod Tests
use linux_cc2520_driver.Prelude.{
  ℕ, ◌+◌, Option, none, some, List, [], ◌∷◌, ◌++◌, Buf, length, take, drop,
}
use linux_cc2520_driver.Radio.State.{
  Message, TxCallback, RadioEffect, spi_sync, spi_async_tx, spi_async_rx, gpio_reset, udelay,
  top_tx_done, top_rx_done,
}

-- Where a transfer's bytes lie in `tx_buf`.
abbrev pub Transfer : Type 0
Transfer = ℕ × ℕ

pub record Shared : Type 0 where
  pub tx_buf : Buf
  -- the transfers of `msg`, in order, and `msg.complete`
  pub transfers : List Transfer
  pub complete : Option TxCallback

-- `tx_buf[offset + tsfer.len++] = …`, for each of a transfer's bytes
unfoldable pub put : ℕ → List ℕ → Buf → Buf
put offset bytes buf = take offset buf ++ (bytes ++ drop (offset + length bytes) buf)

-- `buf_offset += tsfer.len` from one transfer to the next
unfoldable pub lay : ℕ → Message → Buf → Buf
lay offset [] buf = buf
lay offset (t ∷ ts) buf = lay (offset + length t) ts (put offset t buf)

-- `spi_message_add_tail`, for each transfer
unfoldable pub tails : ℕ → Message → List Transfer
tails offset [] = []
tails offset (t ∷ ts) = (offset, length t) ∷ tails (offset + length t) ts

-- `spi_message_init(&msg)` and what follows it, up to the call of the bus; `spi_sync` has no callback of
-- the driver.
unfoldable pub fill : Message → Option TxCallback → Shared → Shared
fill m cb s = record { tx_buf = lay 0 m s.tx_buf; transfers = tails 0 m; complete = cb }

abbrev pub fill_for : RadioEffect → Shared → Shared
fill_for (spi_sync m) s = fill m none s
fill_for (spi_async_tx m cb) s = fill m (some cb) s
fill_for (spi_async_rx m cb) s = s
fill_for (gpio_reset v) s = s
fill_for (udelay us) s = s
fill_for (top_tx_done status) s = s
fill_for (top_rx_done buf len) s = s

unfoldable pub fill_all : List RadioEffect → Shared → Shared
fill_all [] s = s
fill_all (e ∷ es) s = fill_all es (fill_for e s)

-- What the bus finds in the memory that `msg` points to.
unfoldable pub gather : List Transfer → Buf → Message
gather [] buf = []
gather ((offset, n) ∷ ts) buf = take n (drop offset buf) ∷ gather ts buf

abbrev pub on_bus : Shared → Message
on_bus s = gather s.transfers s.tx_buf

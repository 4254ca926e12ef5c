-- ===== src/Radio/TxWorld.antt =====
-- The transmit engine among its neighbours: any interleaving of sends, completions of the SPI
-- message, SFD edges at any time (also those of received frames) and switching the radio on or off.
-- An SPI completion comes only for the message under way; a call that spins takes no step.
use linux_cc2520_driver.Prelude.{ℕ, ◌+◌, ◌≡◌, Bool, Option, none, some, List, [], ◌∷◌, Buf, ok}
use linux_cc2520_driver.Radio.State.{
  Radio, TxCallback, continue_tx_check, continue_tx, complete_flush_tx, RadioEffect, spi_sync,
  spi_async_tx, spi_async_rx, gpio_reset, udelay, top_tx_done, top_rx_done, init,
}
use linux_cc2520_driver.Radio.Config.{start, on, off}
use linux_cc2520_driver.Radio.Tx.{tx_packet, tx_check, tx_written, tx_flushed, sfd_occurred}

pub record TxWorld : Type 0 where
  pub radio : Radio
  -- the callback of the SPI message under way
  pub spi : Option TxCallback
  -- packets taken by `cc2520_radio_tx`, and calls of `radio_top->tx_done`
  pub accepted : ℕ
  pub completed : ℕ

abbrev pub post : RadioEffect → TxWorld → TxWorld
post (spi_async_tx m cb) w = record w { spi = some cb }
post (top_tx_done status) w = record w { completed = w.completed + 1 }
post (spi_sync m) w = w
post (spi_async_rx m cb) w = w
post (gpio_reset v) w = w
post (udelay us) w = w
post (top_rx_done buf len) w = w

abbrev pub post_all : List RadioEffect → TxWorld → TxWorld
post_all [] w = w
post_all (e ∷ es) w = post_all es (post e w)

abbrev pub settle : TxWorld → Radio → List RadioEffect → TxWorld
settle w r es = post_all es (record w { radio = r })

abbrev pub spi_through : TxWorld → TxWorld
spi_through w = record w { spi = none }

abbrev pub begin : Buf → Buf → Buf → TxWorld
begin in_fresh tx_fresh rx_fresh = record {
  radio = init in_fresh tx_fresh rx_fresh;
  spi = none;
  accepted = 0;
  completed = 0;
}

pub data Step (w u : TxWorld) : Type 0 where
  send :
      (buf : Buf) (len : ℕ) (r : Radio) (es : List RadioEffect)
      → tx_packet w.radio buf len ≡ ok (r, es)
      → u ≡ settle (record w { accepted = w.accepted + 1 }) r es
      → Step w u
  check :
      (fifo : Bool) (r : Radio) (es : List RadioEffect)
      → w.spi ≡ some continue_tx_check
      → tx_check w.radio fifo ≡ ok (r, es)
      → u ≡ settle (spi_through w) r es
      → Step w u
  written :
      (exceptions : ℕ) (r : Radio) (es : List RadioEffect)
      → w.spi ≡ some continue_tx
      → tx_written w.radio exceptions ≡ ok (r, es)
      → u ≡ settle (spi_through w) r es
      → Step w u
  flushed :
      (r : Radio) (es : List RadioEffect)
      → w.spi ≡ some complete_flush_tx
      → tx_flushed w.radio ≡ ok (r, es)
      → u ≡ settle (spi_through w) r es
      → Step w u
  sfd :
      (nano_timestamp : ℕ) (is_high : Bool) (r : Radio) (es : List RadioEffect)
      → sfd_occurred w.radio nano_timestamp is_high ≡ ok (r, es)
      → u ≡ settle w r es
      → Step w u
  starts :
      (r : Radio) (es : List RadioEffect)
      → start w.radio ≡ ok (r, es)
      → u ≡ settle w r es
      → Step w u
  turns_on :
      (r : Radio) (es : List RadioEffect) → on w.radio ≡ ok (r, es) → u ≡ settle w r es → Step w u
  turns_off :
      (r : Radio) (es : List RadioEffect) → off w.radio ≡ ok (r, es) → u ≡ settle w r es → Step w u

pub data Reach (s : TxWorld) : TxWorld → Type 0 where
  here : Reach s s
  next : {w u : TxWorld} → Reach s w → Step w u → Reach s u

-- ===== src/Sack/World.antt =====
-- The layer among its neighbours: any interleaving of calls from above, received packets, its timer
-- and completions from below. A completion comes only for an outstanding `bottom->tx`, and an
-- interrupt only from a running timer. A call that spins takes no step.
use linux_cc2520_driver.Prelude.{ℕ, ◌<◌, ◌≡◌, true, List, Buf, ok}
use linux_cc2520_driver.Layer.{Effect}
use linux_cc2520_driver.Ledger.{Ledger, World, empty_ledger, post_all, asked, fired, answered}
use linux_cc2520_driver.Sack.{Sack, init, tx_packet, tx_done, rx_done, timer_cb, set_timeout}

abbrev pub settle : Ledger → Sack → List Effect → World Sack
settle a s es = record { layer = s; ledger = post_all es a }

abbrev pub start : Buf → Buf → Buf → World Sack
start ack_fresh tx_fresh rx_fresh = record {
  layer = init ack_fresh tx_fresh rx_fresh;
  ledger = empty_ledger;
}

pub data Step (w u : World Sack) : Type 0 where
  send :
      (buf : Buf) (len : ℕ) (s : Sack) (es : List Effect)
      → tx_packet w.layer buf len ≡ ok (s, es)
      → u ≡ settle (asked w.ledger) s es
      → Step w u
  fire :
      (s : Sack) (es : List Effect)
      → w.ledger.armed ≡ true
      → timer_cb w.layer ≡ ok (s, es)
      → u ≡ settle (fired w.ledger) s es
      → Step w u
  finish :
      (status : ℕ) (s : Sack) (es : List Effect)
      → 0 < w.ledger.sending
      → tx_done w.layer status ≡ ok (s, es)
      → u ≡ settle (answered w.ledger) s es
      → Step w u
  receive :
      (buf : Buf) (len : ℕ) (s : Sack) (es : List Effect)
      → rx_done w.layer buf len ≡ ok (s, es)
      → u ≡ settle w.ledger s es
      → Step w u
  configure : (timeout : ℕ) → u ≡ record w { layer = set_timeout w.layer timeout } → Step w u

pub data Reach (s : World Sack) : World Sack → Type 0 where
  here : Reach s s
  next : {w u : World Sack} → Reach s w → Step w u → Reach s u

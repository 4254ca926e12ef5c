-- ===== src/Csma/World.antt =====
-- The layer among its neighbours: any interleaving of calls from above, timer interrupts, the work
-- queue and completions from below. A completion comes only for an outstanding `bottom->tx`, an
-- interrupt only from a running timer, and the work runs only when queued. CSMA stays enabled.
use linux_cc2520_driver.Prelude.{ℕ, ◌<◌, ◌≡◌, Bool, true, List, Buf, ok}
use linux_cc2520_driver.Layer.{Effect}
use linux_cc2520_driver.Ledger.{
  Ledger, World, empty_ledger, post_all, asked, fired, dequeued, answered,
}
use linux_cc2520_driver.Csma.{
  Csma, init, tx_packet, timer_cb, wq, tx_done, rx_done, set_min_backoff, set_init_backoff,
  set_cong_backoff,
}

abbrev pub settle : Ledger → Csma → List Effect → World Csma
settle l c es = record { layer = c; ledger = post_all es l }

abbrev pub start : Buf → World Csma
start fresh = record { layer = init fresh; ledger = empty_ledger }

pub data Step (w u : World Csma) : Type 0 where
  send :
      (buf : Buf) (len rand_num : ℕ) (c : Csma) (es : List Effect)
      → tx_packet w.layer buf len rand_num ≡ ok (c, es)
      → u ≡ settle (asked w.ledger) c es
      → Step w u
  fire :
      (clear : Bool) (rand_num : ℕ) (c : Csma) (es : List Effect)
      → w.ledger.armed ≡ true
      → timer_cb w.layer clear rand_num ≡ ok (c, es)
      → u ≡ settle (fired w.ledger) c es
      → Step w u
  work :
      (c : Csma) (es : List Effect)
      → w.ledger.queued ≡ true
      → wq w.layer ≡ ok (c, es)
      → u ≡ settle (dequeued w.ledger) c es
      → Step w u
  finish :
      (status : ℕ) (c : Csma) (es : List Effect)
      → 0 < w.ledger.sending
      → tx_done w.layer status ≡ ok (c, es)
      → u ≡ settle (answered w.ledger) c es
      → Step w u
  receive :
      (buf : Buf) (len : ℕ) (c : Csma) (es : List Effect)
      → rx_done w.layer buf len ≡ ok (c, es)
      → u ≡ settle w.ledger c es
      → Step w u
  configure_min :
      (backoff : ℕ) → u ≡ record w { layer = set_min_backoff w.layer backoff } → Step w u
  configure_init :
      (backoff : ℕ) → u ≡ record w { layer = set_init_backoff w.layer backoff } → Step w u
  configure_cong :
      (backoff : ℕ) → u ≡ record w { layer = set_cong_backoff w.layer backoff } → Step w u

pub data Reach (s : World Csma) : World Csma → Type 0 where
  here : Reach s s
  next : {w u : World Csma} → Reach s w → Step w u → Reach s u

-- ===== src/Lpl/World.antt =====
-- The layer among its neighbours: any interleaving of calls from above, its timer and completions
-- from below, also between the two parts of `cc2520_lpl_tx` (`send` and `arm`). That function is called
-- again only after it has returned: `interface_write` holds `tx_sem` around it. A completion comes only
-- for an outstanding `bottom->tx`, and an interrupt only from a running timer. LPL stays enabled.
use linux_cc2520_driver.Prelude.{ℕ, ◌<◌, ◌≡◌, Bool, true, false, not, ◌&&◌, ◌||◌, List, Buf, ok}
use linux_cc2520_driver.Layer.{Effect}
use linux_cc2520_driver.Ledger.{
  Ledger, World, empty_ledger, post_all, asked, called, fired, answered,
}
use linux_cc2520_driver.Lpl.{
  Lpl, State, tx, init, tx_calls, tx_starts, tx_done, rx_done, timer_cb, set_listen_length,
  set_wakeup_interval,
}

abbrev pub is_running : State → Bool
is_running tx = true
is_running _ = false

abbrev pub settle : Ledger → Lpl → List Effect → World Lpl
settle a l es = record { layer = l; ledger = post_all es a }

abbrev pub start : Buf → World Lpl
start fresh = record { layer = init fresh; ledger = empty_ledger }

pub data Step (w u : World Lpl) : Type 0 where
  send :
      (buf : Buf) (len : ℕ) (l : Lpl) (es : List Effect) (to_start : Bool)
      → w.ledger.starting ≡ false
      → tx_calls w.layer buf len ≡ ok (l, es, to_start)
      → u ≡ settle (called to_start (asked w.ledger)) l es
      → Step w u
  arm :
      w.ledger.starting ≡ true
      → u ≡ settle (called false w.ledger) w.layer (tx_starts w.layer)
      → Step w u
  fire :
      (l : Lpl) (es : List Effect)
      → w.ledger.armed ≡ true
      → timer_cb w.layer ≡ ok (l, es)
      → u ≡ settle (fired w.ledger) l es
      → Step w u
  finish :
      (status : ℕ) (l : Lpl) (es : List Effect)
      → 0 < w.ledger.sending
      → tx_done w.layer status ≡ ok (l, es)
      → u ≡ settle (answered w.ledger) l es
      → Step w u
  receive :
      (buf : Buf) (len : ℕ) (l : Lpl) (es : List Effect)
      → rx_done w.layer buf len ≡ ok (l, es)
      → u ≡ settle w.ledger l es
      → Step w u
  configure_window :
      (length : ℕ) → u ≡ record w { layer = set_listen_length w.layer length } → Step w u
  configure_interval :
      (interval : ℕ) → u ≡ record w { layer = set_wakeup_interval w.layer interval } → Step w u

-- The step ends a packet whose timer has yet to be started.
abbrev pub early : {w u : World Lpl} → Step w u → Bool
early {w} (finish status l es g e eu) = w.ledger.starting && not (is_running l.lpl_state)
early _ = false

-- A run, and whether some packet in it has ended before its timer was started.
pub data Reach (s : World Lpl) : World Lpl → Bool → Type 0 where
  here : Reach s s false
  next :
      {w u : World Lpl} {overtaken : Bool}
      → Reach s w overtaken
      → (st : Step w u) → Reach s u (overtaken || early st)

-- ===== src/Radio/RxWorld.antt =====
-- The receive engine among its neighbours: FIFOP interrupts at any time, completions of the receive
-- SPI message with any reply, and the upper layers releasing the receive buffer at any time.
use linux_cc2520_driver.Prelude.{
  ℕ, ◌+◌, ◌≡◌, ◌≤◌, Bool, true, false, List, [], ◌∷◌, Buf, ok, if◌then◌else◌, arith,
}
use linux_cc2520_driver.Radio.State.{
  Radio, RxCallback, continue_rx, finish_rx, continue_flush_rx, complete_flush_rx, RadioEffect,
  spi_sync, spi_async_tx, spi_async_rx, gpio_reset, udelay, top_tx_done, top_rx_done, init,
}
use linux_cc2520_driver.Radio.Rx.{
  spi_reply, fifop_occurred, rx_length, rx_flush_again, rx_flushed, rx_deliver, rx_after,
  release_rx,
}

-- Where the engine is: nowhere, in an SPI message, or inside `finishRx` after the packet went up.
pub data Stage : Type 0 where
  quiet : Stage
  awaiting : RxCallback → Stage
  delivered : Stage

pub record RxWorld : Type 0 where
  pub radio : Radio
  pub stage : Stage
  -- FIFOP interrupts that started the engine, and packets passed up
  pub begun : ℕ
  pub received : ℕ

abbrev pub post : RadioEffect → RxWorld → RxWorld
post (spi_async_rx m cb) w = record w { stage = awaiting cb }
post (top_rx_done buf len) w = record w { received = w.received + 1 }
post (spi_async_tx m cb) w = w
post (spi_sync m) w = w
post (gpio_reset v) w = w
post (udelay us) w = w
post (top_tx_done status) w = w

abbrev pub post_all : List RadioEffect → RxWorld → RxWorld
post_all [] w = w
post_all (e ∷ es) w = post_all es (post e w)

abbrev pub settle : RxWorld → Stage → Radio → List RadioEffect → RxWorld
settle w stage r es = post_all es (record w { radio = r; stage = stage })

abbrev pub count_start : RxWorld → RxWorld
count_start w = record w { begun = if w.radio.pending_rx then w.begun else w.begun + 1 }

abbrev pub begin : Buf → Buf → Buf → RxWorld
begin in_fresh tx_fresh rx_fresh = record {
  radio = init in_fresh tx_fresh rx_fresh;
  stage = quiet;
  begun = 0;
  received = 0;
}

pub data Step (w u : RxWorld) : Type 0 where
  fifop :
      (r : Radio) (es : List RadioEffect)
      → fifop_occurred w.radio ≡ ok (r, es)
      → u ≡ settle (count_start w) w.stage r es
      → Step w u
  length_read :
      (reply : List ℕ) (r : Radio) (es : List RadioEffect)
      → w.stage ≡ awaiting continue_rx
      → rx_length (spi_reply w.radio reply) ≡ ok (r, es)
      → u ≡ settle w quiet r es
      → Step w u
  frame_read :
      (reply : List ℕ) (len : ℕ) (r : Radio) (es : List RadioEffect)
      → w.stage ≡ awaiting (finish_rx len)
      → rx_deliver (spi_reply w.radio reply) len ≡ ok (r, es)
      → u ≡ settle w delivered r es
      → Step w u
  after :
      (fifo : Bool) (r : Radio) (es : List RadioEffect)
      → w.stage ≡ delivered
      → rx_after w.radio fifo ≡ ok (r, es)
      → u ≡ settle w quiet r es
      → Step w u
  flush_again :
      (r : Radio) (es : List RadioEffect)
      → w.stage ≡ awaiting continue_flush_rx
      → rx_flush_again w.radio ≡ ok (r, es)
      → u ≡ settle w quiet r es
      → Step w u
  flushed :
      (r : Radio) (es : List RadioEffect)
      → w.stage ≡ awaiting complete_flush_rx
      → rx_flushed w.radio ≡ ok (r, es)
      → u ≡ settle w quiet r es
      → Step w u
  release : u ≡ record w { radio = release_rx w.radio } → Step w u

pub data Reach (s : RxWorld) : RxWorld → Type 0 where
  here : Reach s s
  next : {w u : RxWorld} → Reach s w → Step w u → Reach s u

-- Whether the engine is at work, and whether it may still pass a packet up.
abbrev pub is_busy : Stage → Bool
is_busy quiet = false
is_busy _ = true

abbrev pub to_come : Stage → ℕ
to_come (awaiting continue_rx) = 1
to_come (awaiting (finish_rx len)) = 1
to_come _ = 0

pub record Inv (w : RxWorld) : Type 0 where
  pub gate : w.radio.pending_rx ≡ is_busy w.stage
  pub at_most_one : w.received + to_come w.stage ≤ w.begun

pub begin-Inv : (i t r : Buf) → Inv (begin i t r)
unfolding init
begin-Inv i t r = ground arith

Step-Inv : {w u : RxWorld} → Step w u → Inv w → Inv u
unfolding fifop_occurred rx_length rx_flush_again rx_flushed rx_deliver rx_after release_rx
    spi_reply
Step-Inv (fifop r es e eu) v = ground arith
Step-Inv (length_read reply r es g e eu) v = ground arith
Step-Inv (frame_read reply len r es g e eu) v = ground arith
Step-Inv (after fifo r es g e eu) v = ground arith
Step-Inv (flush_again r es g e eu) v = ground arith
Step-Inv (flushed r es g e eu) v = ground arith
Step-Inv (release eu) v = ground arith

pub Reach-Inv : {s w : RxWorld} → Inv s → Reach s w → Inv w
Reach-Inv v here = v
Reach-Inv v (next r st) = Step-Inv st (Reach-Inv v r)

-- From initialisation on, under any interleaving: `pending_rx` is set exactly while the engine is at
-- work, so that an interrupt never starts a second receive message over one under way; and at most
-- one packet is passed up for each interrupt that started the engine.
pub rx_gate :
    (in_fresh tx_fresh rx_fresh : Buf) {w : RxWorld}
    → Reach (begin in_fresh tx_fresh rx_fresh) w
    → (w.radio.pending_rx ≡ is_busy w.stage) × (w.received + to_come w.stage ≤ w.begun)
rx_gate i t r reach = let v = Reach-Inv (begin-Inv i t r) reach in (v.gate, v.at_most_one)

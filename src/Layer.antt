-- ===== src/Layer.antt =====
-- `struct cc2520_interface` of cc2520.h: how the layers of the stack call one another.
-- A layer is bound to a neighbour above (`top`) and one below (`bottom`). What a handler does apart
-- from updating its layer's variables is the list of its calls, in program order, each with the
-- bytes that its pointer argument points to.
use linux_cc2520_driver.Prelude.{ℕ, ◌*◌, ◌%◌, ◌^◌, List, Buf, Outcome}

pub data Effect : Type 0 where
  -- `bottom->tx(buf, len)`
  bottom_tx : Buf → ℕ → Effect
  -- `top->tx_done(status)`
  top_tx_done : ℕ → Effect
  -- `top->rx_done(buf, len)`
  top_rx_done : Buf → ℕ → Effect
  -- `hrtimer_start(&timer, kt, HRTIMER_MODE_REL)`, `kt` in nanoseconds
  start_timer : ℕ → Effect
  -- `hrtimer_forward_now(&timer, kt)` by a callback that returns `HRTIMER_RESTART`
  forward_timer : ℕ → Effect
  -- `hrtimer_cancel(&timer)`
  cancel_timer : Effect
  -- `queue_work(wq, &work)`
  queue_work : Effect
  -- `cc2520_radio_release_rx()`
  release_rx : Effect

-- What a handler comes to: the layer's variables afterwards, and its calls.
abbrev pub Handled : Type 0 → Type 0
Handled S = Outcome (S × List Effect)

-- `1000 * us`, an `int` product that `ktime_set` takes as a 32-bit unsigned number.
abbrev pub us_to_ns : ℕ → ℕ
us_to_ns us = 1000 * us % 2 ^ 32

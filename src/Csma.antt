-- ===== src/Csma.antt =====
-- csma.c: random backoff and channel assessment before a transmission.
-- An `int` is its 32-bit pattern. A handler's section under `state_sl` runs without interleaving,
-- and every path releases the lock, so the lock itself is not part of the state. The random number
-- of `get_random_bytes` and the reading of the CCA pin are arguments.
pub mod Backoff
pub mod World
pub mod Payload
pub mod Advance
pub mod Report
pub mod Completion
pub mod Progress
pub mod Toggle
pub mod Hold
mod Tests
use linux_cc2520_driver.Prelude.{
  ℕ, ◌+◌, ◌-◌, ◌%◌, ◌^◌, Bool, true, false, List, [], ◌∷◌, Buf, Outcome, ok, fault, blocked, ◌>>=◌,
  memcpy, replicate, ◌==◌, if◌then◌else◌,
}
use linux_cc2520_driver.Config.{
  tx_busy, neg_u8, def_min_backoff, def_init_backoff, def_cong_backoff, def_csma_enabled,
}
use linux_cc2520_driver.Layer.{
  Effect, bottom_tx, top_tx_done, top_rx_done, start_timer, forward_timer, queue_work, Handled,
  us_to_ns,
}

-- enum cc2520_csma_state_enum
pub data State : Type 0 where
  idle tx cong : State

pub record Csma : Type 0 where
  pub backoff_min : ℕ
  pub backoff_max_init : ℕ
  pub backoff_max_cong : ℕ
  pub csma_enabled : Bool
  pub cur_tx_buf : Buf
  pub cur_tx_len : ℕ
  pub csma_state : State

-- The variables after a successful `cc2520_csma_init`, for the bytes that `kmalloc` returned.
unfoldable pub init : Buf → Csma
init fresh = record {
  backoff_min = def_min_backoff;
  backoff_max_init = def_init_backoff;
  backoff_max_cong = def_cong_backoff;
  csma_enabled = def_csma_enabled;
  cur_tx_buf = fresh;
  cur_tx_len = 0;
  csma_state = idle;
}

-- `rand_num % span` divides by zero if the bounds are equal; `span` is taken as unsigned.
unfoldable pub get_backoff : ℕ → ℕ → ℕ → Outcome ℕ
get_backoff min max rand_num =
    let span = (max + 2 ^ 32 - min) % 2 ^ 32 in
    if span == 0 then fault else ok ((min + rand_num % span) % 2 ^ 32)

-- The part of the timer callback for a busy channel.
timer_busy : State → Csma → ℕ → Handled Csma
timer_busy tx c rand_num = do
  new_backoff ← get_backoff c.backoff_min c.backoff_max_cong rand_num
  ok (record c { csma_state = cong }, forward_timer (us_to_ns new_backoff) ∷ [])
timer_busy _ c rand_num = ok (record c { csma_state = idle }, top_tx_done (neg_u8 tx_busy) ∷ [])

-- `cc2520_csma_timer_cb`; `clear` is `cc2520_radio_is_clear()`.
unfoldable pub timer_cb : Csma → Bool → ℕ → Handled Csma
unfolding timer_busy
timer_cb c clear rand_num =
    if clear then ok (c, queue_work ∷ []) else timer_busy c.csma_state c rand_num

-- `cc2520_csma_wq`
unfoldable pub wq : Csma → Handled Csma
wq c = ok (c, bottom_tx c.cur_tx_buf c.cur_tx_len ∷ [])

-- The part of `cc2520_csma_tx` for an enabled layer.
unfoldable pub tx_enabled : State → Csma → Buf → ℕ → ℕ → Handled Csma
tx_enabled idle c buf len rand_num = do
  cur_tx_buf ← memcpy c.cur_tx_buf buf len
  backoff ← get_backoff c.backoff_min c.backoff_max_init rand_num
  ok (
    record c { csma_state = tx; cur_tx_buf = cur_tx_buf; cur_tx_len = len },
    start_timer (us_to_ns backoff) ∷ [],
  )
tx_enabled _ c buf len rand_num = ok (c, top_tx_done (neg_u8 tx_busy) ∷ [])

-- `cc2520_csma_tx`
unfoldable pub tx_packet : Csma → Buf → ℕ → ℕ → Handled Csma
unfolding tx_enabled
tx_packet c buf len rand_num =
    if c.csma_enabled
    then tx_enabled c.csma_state c buf len rand_num
    else ok (c, bottom_tx buf len ∷ [])

unfoldable pub tx_done : Csma → ℕ → Handled Csma
tx_done c status =
    ok (if c.csma_enabled then record c { csma_state = idle } else c, top_tx_done status ∷ [])

unfoldable pub rx_done : Csma → Buf → ℕ → Handled Csma
rx_done c buf len = ok (c, top_rx_done buf len ∷ [])

unfoldable pub set_enabled : Csma → Bool → Csma
set_enabled c enabled = record c { csma_enabled = enabled }

unfoldable pub set_min_backoff : Csma → ℕ → Csma
set_min_backoff c backoff = record c { backoff_min = backoff }

unfoldable pub set_init_backoff : Csma → ℕ → Csma
set_init_backoff c backoff = record c { backoff_max_init = backoff }

unfoldable pub set_cong_backoff : Csma → ℕ → Csma
set_cong_backoff c backoff = record c { backoff_max_cong = backoff }

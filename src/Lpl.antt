-- ===== src/Lpl.antt =====
-- lpl.c: low-power listening. A packet is sent again and again for one listening period, until it
-- is acknowledged (if it asks for that) or the timer has run out.
-- A handler's section under `state_sl` runs without interleaving, and every path releases the lock.
-- `cc2520_lpl_tx` is in two parts, since completions, receptions and interrupts may come between its call
-- of the layer below and the start of its timer.
pub mod World
pub mod Payload
pub mod Advance
pub mod Report
pub mod Completion
pub mod Start
pub mod Stale
pub mod Session
pub mod Toggle
pub mod Hold
mod Tests
use linux_cc2520_driver.Prelude.{
  ℕ, ◌+◌, ◌*◌, ◌%◌, ◌^◌, Bool, true, false, List, [], ◌∷◌, ◌++◌, Buf, Outcome, ok, fault, blocked,
  ◌>>=◌, memcpy, ◌==◌, if◌then◌else◌,
}
use linux_cc2520_driver.Config.{
  tx_success, tx_busy, tx_failed, neg_u8, def_lpl_wakeup_interval, def_lpl_listen_window,
  def_lpl_enabled,
}
use linux_cc2520_driver.Packet.{requires_ack_wait}
use linux_cc2520_driver.Layer.{
  Effect, bottom_tx, top_tx_done, top_rx_done, start_timer, cancel_timer, Handled, us_to_ns,
}

-- enum cc2520_lpl_state_enum
pub data State : Type 0 where
  idle tx timer_expired : State

pub record Lpl : Type 0 where
  pub lpl_window : ℕ
  pub lpl_interval : ℕ
  pub lpl_enabled : Bool
  pub cur_tx_buf : Buf
  pub cur_tx_len : ℕ
  pub lpl_state : State

-- The variables after a successful `cc2520_lpl_init`, for the bytes that `kmalloc` returned.
unfoldable pub init : Buf → Lpl
init fresh = record {
  lpl_window = def_lpl_listen_window;
  lpl_interval = def_lpl_wakeup_interval;
  lpl_enabled = def_lpl_enabled;
  cur_tx_buf = fresh;
  cur_tx_len = 0;
  lpl_state = idle;
}

-- `1000 * (lpl_interval + 2 * lpl_window)`
unfoldable pub timer_ns : Lpl → ℕ
timer_ns l = us_to_ns (l.lpl_interval + 2 * l.lpl_window)

-- A call of `cc2520_lpl_tx` that has handed the packet on and holds no lock: the calls that it has made,
-- and whether it has yet to start the timer.
abbrev pub Called : Type 0
Called = Lpl × List Effect × Bool

-- The part of `cc2520_lpl_tx` for an enabled layer, up to the return of the call that it makes.
unfoldable pub call_enabled : State → Lpl → Buf → ℕ → Outcome Called
call_enabled idle l buf len = do
  cur_tx_buf ← memcpy l.cur_tx_buf buf len
  ok (
    record l { lpl_state = tx; cur_tx_buf = cur_tx_buf; cur_tx_len = len },
    bottom_tx cur_tx_buf len ∷ [],
    true,
  )
call_enabled _ l buf len = ok (l, top_tx_done (neg_u8 tx_busy) ∷ [], false)

-- `cc2520_lpl_tx` up to the return of the call that it makes.
unfoldable pub tx_calls : Lpl → Buf → ℕ → Outcome Called
unfolding call_enabled
tx_calls l buf len =
    if l.lpl_enabled
    then call_enabled l.lpl_state l buf len
    else ok (l, bottom_tx buf len ∷ [], false)

-- `cc2520_lpl_start_timer`, for the listening period of that time.
unfoldable pub tx_starts : Lpl → List Effect
tx_starts l = start_timer (timer_ns l) ∷ []

-- `cc2520_lpl_tx` with nothing in between.
unfoldable pub tx_packet : Lpl → Buf → ℕ → Handled Lpl
unfolding tx_calls tx_starts
tx_packet l buf len = do
  (l', es, to_start) ← tx_calls l buf len
  ok (l', es ++ (if to_start then tx_starts l' else []))

abbrev is_expired : State → Bool
is_expired timer_expired = true
is_expired _ = false

-- The part of `cc2520_lpl_tx_done` for an enabled layer.
done_enabled : Lpl → ℕ → Handled Lpl
done_enabled l status =
    let idle_l = record l { lpl_state = idle } in
    let again = bottom_tx l.cur_tx_buf l.cur_tx_len ∷ [] in
    if requires_ack_wait l.cur_tx_buf
    then (if status == tx_success
        then ok (idle_l, cancel_timer ∷ top_tx_done status ∷ [])
        else if is_expired l.lpl_state
        then ok (idle_l, top_tx_done (neg_u8 tx_failed) ∷ [])
        else ok (l, again))
    else (if is_expired l.lpl_state
        then ok (idle_l, top_tx_done tx_success ∷ [])
        else ok (l, again))

-- `cc2520_lpl_tx_done`
unfoldable pub tx_done : Lpl → ℕ → Handled Lpl
unfolding done_enabled
tx_done l status = if l.lpl_enabled then done_enabled l status else ok (l, top_tx_done status ∷ [])

unfoldable pub rx_done : Lpl → Buf → ℕ → Handled Lpl
rx_done l buf len = ok (l, top_rx_done buf len ∷ [])

expire : State → Lpl → Lpl
expire tx l = record l { lpl_state = timer_expired }
expire _ l = l

-- `cc2520_lpl_timer_cb`
unfoldable pub timer_cb : Lpl → Handled Lpl
unfolding expire
timer_cb l = ok (expire l.lpl_state l, [])

unfoldable pub set_enabled : Lpl → Bool → Lpl
set_enabled l enabled = record l { lpl_enabled = enabled }

unfoldable pub set_listen_length : Lpl → ℕ → Lpl
set_listen_length l length = record l { lpl_window = length }

unfoldable pub set_wakeup_interval : Lpl → ℕ → Lpl
set_wakeup_interval l interval = record l { lpl_interval = interval }

-- ===== src/Sack/Deadlock.antt =====
-- The branch of `cc2520_sack_tx_done` that returns with the lock held.
use linux_cc2520_driver.Prelude.{
  ℕ, ◌≤◌, ◌≡◌, ◌⊎◌, refl, true, false, [], Buf, ok, blocked, length, memcpy-ok, arith,
}
use linux_cc2520_driver.Sack.{Sack, idle, tx_wait, tx_packet, tx_done, rx_done, timer_cb}

-- A completion that arrives when nothing is being sent is swallowed and leaves the lock held:
-- from then on every handler spins, whatever it is called with (a received packet being one that
-- fits the buffer).
pub tx_done-deadlocks :
    (s : Sack) (status later : ℕ) (buf : Buf) (len : ℕ)
    → s.sack_sl ≡ false
    → (s.sack_state ≡ idle) ⊎ (s.sack_state ≡ tx_wait)
    → len ≤ length buf
    → len ≤ length s.cur_rx_buf
    → (s' : Sack) × (tx_done s status ≡ ok (s', []))
      × (tx_packet s' buf len ≡ blocked)
      × (tx_done s' later ≡ blocked)
      × (rx_done s' buf len ≡ blocked)
      × (timer_cb s' ≡ blocked)
unfolding tx_packet tx_done rx_done timer_cb
tx_done-deadlocks s status later buf len free quiet have fits = (
  record s { sack_sl = true },
  ground arith,
  refl,
  refl,
  ground (arith, memcpy-ok s.cur_rx_buf buf len fits have),
  refl,
)

-- ===== src/Lpl/Start.antt =====
-- A packet taken, and the length of the listening period.
use linux_cc2520_driver.Prelude.{ℕ, ◌+◌, ◌*◌, ◌≤◌, ◌≡◌, ◌↔◌, ◌++◌, Buf, take, drop, arith}
use linux_cc2520_driver.Lpl.{Lpl, tx, timer_ns}

-- The variables with a packet taken.
abbrev pub loaded : Lpl → Buf → ℕ → Lpl
loaded l buf len = record l {
  lpl_state = tx;
  cur_tx_buf = take len buf ++ drop len l.cur_tx_buf;
  cur_tx_len = len;
}

-- The timer runs for 1000 * (interval + 2 * window) nanoseconds exactly if that is at most
-- 4294967295; any longer period comes out shorter than asked for.
pub timer_ns-exact :
    (l : Lpl)
    → (timer_ns l ≡ 1000 * (l.lpl_interval + 2 * l.lpl_window))
      ↔ (l.lpl_interval + 2 * l.lpl_window ≤ 4294967)
unfolding timer_ns
timer_ns-exact l = (λ e. omega arith, λ h. omega arith)

-- ===== src/Lpl/Hold.antt =====
-- What the layer does while neither a call from above nor a completion from below reaches it.
use linux_cc2520_driver.Prelude.{◌≡◌, arith}
use linux_cc2520_driver.Ledger.{World}
use linux_cc2520_driver.Lpl.{
  Lpl, tx_calls, tx_starts, tx_done, rx_done, timer_cb, set_listen_length, set_wakeup_interval,
}
use linux_cc2520_driver.Lpl.World.{
  Step, send, arm, fire, finish, receive, configure_window, configure_interval,
}
use linux_cc2520_driver.Lpl.Completion.{Inv}

pub Step-holds :
    {w u : World Lpl}
    → Step w u
    → Inv w
    → u.ledger.accepted ≡ w.ledger.accepted
    → u.ledger.answers ≡ w.ledger.answers
    → (u.ledger.sending ≡ w.ledger.sending) × (u.ledger.completed ≡ w.ledger.completed)
unfolding tx_calls tx_starts timer_cb tx_done rx_done set_listen_length set_wakeup_interval
Step-holds (send buf len l es b g e eu) v a n = ground arith
Step-holds (arm g eu) v a n = ground arith
Step-holds (fire l es g e eu) v a n = ground arith
Step-holds (finish status l es g e eu) v a n = ground arith
Step-holds (receive buf len l es e eu) v a n = ground arith
Step-holds (configure_window b eu) v a n = ground arith
Step-holds (configure_interval b eu) v a n = ground arith

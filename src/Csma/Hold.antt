-- ===== src/Csma/Hold.antt =====
-- What the layer does while its packet is below it and no completion reaches it.
use linux_cc2520_driver.Prelude.{◌≡◌, arith}
use linux_cc2520_driver.Ledger.{World}
use linux_cc2520_driver.Csma.{
  Csma, tx_packet, timer_cb, wq, tx_done, rx_done, set_min_backoff, set_init_backoff,
  set_cong_backoff,
}
use linux_cc2520_driver.Csma.World.{
  Step, send, fire, work, finish, receive, configure_min, configure_init, configure_cong,
}
use linux_cc2520_driver.Csma.Completion.{Inv}

pub Step-holds :
    {w u : World Csma}
    → Step w u
    → Inv w
    → w.ledger.sending ≡ 1
    → u.ledger.accepted ≡ w.ledger.accepted
    → u.ledger.answers ≡ w.ledger.answers
    → (u.ledger.sending ≡ w.ledger.sending) × (u.ledger.completed ≡ w.ledger.completed)
unfolding tx_packet timer_cb wq tx_done rx_done set_min_backoff set_init_backoff set_cong_backoff
Step-holds (send buf len rand_num c es e eu) v s a n = ground arith
Step-holds (fire clear rand_num c es g e eu) v s a n = ground arith
Step-holds (work c es g e eu) v s a n = ground arith
Step-holds (finish status c es g e eu) v s a n = ground arith
Step-holds (receive buf len c es e eu) v s a n = ground arith
Step-holds (configure_min b eu) v s a n = ground arith
Step-holds (configure_init b eu) v s a n = ground arith
Step-holds (configure_cong b eu) v s a n = ground arith

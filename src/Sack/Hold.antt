-- ===== src/Sack/Hold.antt =====
-- What the layer does while it sends a packet and no completion reaches it.
use linux_cc2520_driver.Prelude.{◌≡◌, arith}
use linux_cc2520_driver.Ledger.{World}
use linux_cc2520_driver.Sack.{Sack, tx, tx_packet, tx_done, rx_done, timer_cb, set_timeout}
use linux_cc2520_driver.Sack.World.{Step, send, fire, finish, receive, configure}
use linux_cc2520_driver.Sack.Completion.{Inv}

pub Step-holds :
    {w u : World Sack}
    → Step w u
    → Inv w
    → w.layer.sack_state ≡ tx
    → u.ledger.answers ≡ w.ledger.answers
    → (u.layer.sack_state ≡ tx)
      × (u.ledger.sending ≡ w.ledger.sending)
      × (u.ledger.accepted ≡ w.ledger.accepted)
      × (u.ledger.completed ≡ w.ledger.completed)
unfolding tx_packet timer_cb tx_done rx_done set_timeout
Step-holds (send buf len s es e eu) v t n = ground arith
Step-holds (fire s es g e eu) v t n = ground arith
Step-holds (finish status s es g e eu) v t n = ground arith
Step-holds (receive buf len s es e eu) v t n = ground arith
Step-holds (configure b eu) v t n = ground arith

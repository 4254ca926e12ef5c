-- ===== src/Sack/Completion.antt =====
-- Every packet given to the layer is completed once, and the lock is always released.
use linux_cc2520_driver.Prelude.{ℕ, ◌+◌, ◌≡◌, false, Buf, arith}
use linux_cc2520_driver.Ledger.{World}
use linux_cc2520_driver.Sack.{
  Sack, State, tx, tx_wait, tx_ack, is_tx_wait, init, tx_packet, tx_done, rx_done, timer_cb,
  set_timeout,
}
use linux_cc2520_driver.Sack.World.{
  Step, send, fire, finish, receive, configure, Reach, here, next, start,
}

-- How many packets from above a state stands for.
abbrev pub load : State → ℕ
load tx = 1
load tx_wait = 1
load _ = 0

-- How many transmissions below are outstanding: a packet or an acknowledgement.
abbrev pub on_air : State → ℕ
on_air tx = 1
on_air tx_ack = 1
on_air _ = 0

pub record Inv (w : World Sack) : Type 0 where
  pub released : w.layer.sack_sl ≡ false
  pub sends : w.ledger.sending ≡ on_air w.layer.sack_state
  pub timed : w.ledger.armed ≡ is_tx_wait w.layer.sack_state
  pub balance : w.ledger.accepted ≡ w.ledger.completed + load w.layer.sack_state

pub start-Inv : (a t r : Buf) → Inv (start a t r)
unfolding init
start-Inv a t r = ground arith

pub Step-Inv : {w u : World Sack} → Step w u → Inv w → Inv u
unfolding tx_packet timer_cb tx_done rx_done set_timeout
Step-Inv (send buf len s es e eu) v = ground arith
Step-Inv (fire s es g e eu) v = ground arith
Step-Inv (finish status s es g e eu) v = ground arith
Step-Inv (receive buf len s es e eu) v = ground arith
Step-Inv (configure b eu) v = ground arith

Reach-Inv : {s w : World Sack} → Inv s → Reach s w → Inv w
Reach-Inv v here = v
Reach-Inv v (next r st) = Step-Inv st (Reach-Inv v r)

-- From initialisation on, under any interleaving of sends, timer interrupts, completions,
-- receptions and changes of the timeout: the lock is not left held, so the branch of `tx_done` that
-- keeps it is not reached; the packets completed are those accepted but for the one that is being
-- sent or waits for its acknowledgement; a transmission below is outstanding, exactly one, while a
-- packet or an acknowledgement is being sent; the timer runs exactly while an acknowledgement is
-- awaited.
pub sack_completion :
    (ack_fresh tx_fresh rx_fresh : Buf) {w : World Sack}
    → Reach (start ack_fresh tx_fresh rx_fresh) w
    → (w.layer.sack_sl ≡ false)
      × (w.ledger.accepted ≡ w.ledger.completed + load w.layer.sack_state)
      × (w.ledger.sending ≡ on_air w.layer.sack_state)
      × (w.ledger.armed ≡ is_tx_wait w.layer.sack_state)
sack_completion a t r reach =
    let v = Reach-Inv (start-Inv a t r) reach in (v.released, v.balance, v.sends, v.timed)

-- ===== src/Csma/Completion.antt =====
-- Every packet given to the layer is completed once, and at most one is under way.
use linux_cc2520_driver.Prelude.{ℕ, ◌+◌, ◌≡◌, true, Buf, arith}
use linux_cc2520_driver.Ledger.{World, waiting}
use linux_cc2520_driver.Csma.{
  Csma, State, idle, init, tx_packet, timer_cb, wq, tx_done, rx_done, set_min_backoff,
  set_init_backoff, set_cong_backoff,
}
use linux_cc2520_driver.Csma.World.{
  Step, send, fire, work, finish, receive, configure_min, configure_init, configure_cong, Reach,
  here, next, start,
}

-- How many packets a state stands for.
abbrev pub load : State → ℕ
load idle = 0
load _ = 1

pub record Inv (w : World Csma) : Type 0 where
  pub enabled : w.layer.csma_enabled ≡ true
  pub busy : waiting w.ledger ≡ load w.layer.csma_state
  pub balance : w.ledger.accepted ≡ w.ledger.completed + waiting w.ledger

pub start-Inv : (fresh : Buf) → Inv (start fresh)
unfolding init
start-Inv fresh = ground arith

pub Step-Inv : {w u : World Csma} → Step w u → Inv w → Inv u
unfolding tx_packet timer_cb wq tx_done rx_done set_min_backoff set_init_backoff set_cong_backoff
Step-Inv (send buf len rand_num c es e eu) v = ground arith
Step-Inv (fire clear rand_num c es g e eu) v = ground arith
Step-Inv (work c es g e eu) v = ground arith
Step-Inv (finish status c es g e eu) v = ground arith
Step-Inv (receive buf len c es e eu) v = ground arith
Step-Inv (configure_min b eu) v = ground arith
Step-Inv (configure_init b eu) v = ground arith
Step-Inv (configure_cong b eu) v = ground arith

Reach-Inv : {s w : World Csma} → Inv s → Reach s w → Inv w
Reach-Inv v here = v
Reach-Inv v (next r st) = Step-Inv st (Reach-Inv v r)

-- From initialisation on, with CSMA left enabled, under any interleaving of sends, timer interrupts, work, completions,
-- receptions and changes of the backoff bounds: the packets completed are those accepted but for
-- the one the layer holds when it is not idle, and then exactly one timer, work item or
-- transmission below is pending for it; when it is idle nothing is pending.
pub csma_completion :
    (fresh : Buf) {w : World Csma}
    → Reach (start fresh) w
    → (w.ledger.accepted ≡ w.ledger.completed + load w.layer.csma_state)
      × (waiting w.ledger ≡ load w.layer.csma_state)
csma_completion fresh r =
    let v = Reach-Inv (start-Inv fresh) r in (omega (arith, v.busy, v.balance), v.busy)

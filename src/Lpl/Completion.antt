-- ===== src/Lpl/Completion.antt =====
-- Every packet given to the layer is completed once, however often it is sent.
use linux_cc2520_driver.Prelude.{ℕ, ◌+◌, ◌≡◌, ◌⊎◌, true, false, not, ◌&&◌, ◌||◌, Bool, Buf, arith}
use linux_cc2520_driver.Ledger.{World}
use linux_cc2520_driver.Lpl.{
  Lpl, State, idle, init, tx_calls, tx_starts, tx_done, rx_done, timer_cb, set_listen_length,
  set_wakeup_interval,
}
use linux_cc2520_driver.Lpl.World.{
  Step, send, arm, fire, finish, receive, configure_window, configure_interval, Reach, here, next,
  start, is_running, early,
}

-- How many packets a state stands for.
abbrev pub load : State → ℕ
load idle = 0
load _ = 1

pub record Inv (w : World Lpl) : Type 0 where
  pub enabled : w.layer.lpl_enabled ≡ true
  pub sends : w.ledger.sending ≡ load w.layer.lpl_state
  pub ends :
      (is_running w.layer.lpl_state ≡ false) ⊎ (w.ledger.armed ≡ true) ⊎ (w.ledger.starting ≡ true)
  -- A timer from an earlier packet is met only in the state TX.
  pub single :
      (is_running w.layer.lpl_state ≡ true) ⊎ (w.ledger.armed ≡ false) ⊎ (w.ledger.starting ≡ false)
  pub balance : w.ledger.accepted ≡ w.ledger.completed + load w.layer.lpl_state

pub start-Inv : (fresh : Buf) → Inv (start fresh)
unfolding init
start-Inv fresh = ground arith

pub Step-Inv : {w u : World Lpl} → Step w u → Inv w → Inv u
unfolding tx_calls tx_starts timer_cb tx_done rx_done set_listen_length set_wakeup_interval
Step-Inv (send buf len l es b g e eu) v = ground arith
Step-Inv (arm g eu) v = ground arith
Step-Inv (fire l es g e eu) v = ground arith
Step-Inv (finish status l es g e eu) v = ground arith
Step-Inv (receive buf len l es e eu) v = ground arith
Step-Inv (configure_window b eu) v = ground arith
Step-Inv (configure_interval b eu) v = ground arith

-- Where no packet has ended too early, a timer is that of the packet that the layer holds.
pub record InTime (w : World Lpl) (overtaken : Bool) : Type 0 where
  pub timed :
      (overtaken ≡ true)
      ⊎ (w.ledger.armed ≡ (is_running w.layer.lpl_state && not w.ledger.starting))
  pub under_way :
      (overtaken ≡ true) ⊎ (w.ledger.starting ≡ false) ⊎ (is_running w.layer.lpl_state ≡ true)

Step-InTime :
    {w u : World Lpl} (overtaken : Bool) (st : Step w u)
    → Inv w
    → InTime w overtaken
    → InTime u (overtaken || early st)
unfolding tx_calls tx_starts timer_cb tx_done rx_done set_listen_length set_wakeup_interval
Step-InTime o (send buf len l es b g e eu) i v = ground arith
Step-InTime o (arm g eu) i v = ground arith
Step-InTime o (fire l es g e eu) i v = ground arith
Step-InTime o (finish status l es g e eu) i v = ground arith
Step-InTime o (receive buf len l es e eu) i v = ground arith
Step-InTime o (configure_window b eu) i v = ground arith
Step-InTime o (configure_interval b eu) i v = ground arith

Reach-Inv :
    (fresh : Buf) {w : World Lpl} {overtaken : Bool}
    → Reach (start fresh) w overtaken
    → Inv w × InTime w overtaken
unfolding init
Reach-Inv fresh here = (start-Inv fresh, ground arith)
Reach-Inv fresh (next {overtaken} r st) =
    let (i, v) = Reach-Inv fresh r in (Step-Inv st i, Step-InTime overtaken st i v)

-- From initialisation on, with LPL left enabled and `cc2520_lpl_tx` called again only after it has
-- returned, under any interleaving of sends, timer interrupts, completions, receptions and changes of the
-- listening period, also between the call that `cc2520_lpl_tx` makes and the start of its timer: the
-- packets completed are those accepted but for the one that a busy layer holds, which has exactly one
-- transmission below outstanding; while the state is TX the timer runs or is about to be started; and
-- unless some packet has ended before its timer was started, the timer runs exactly while the state is TX
-- and `cc2520_lpl_tx` has returned.
pub lpl_completion :
    (fresh : Buf) {w : World Lpl} {overtaken : Bool}
    → Reach (start fresh) w overtaken
    → (w.ledger.accepted ≡ w.ledger.completed + load w.layer.lpl_state)
      × (w.ledger.sending ≡ load w.layer.lpl_state)
      × ((is_running w.layer.lpl_state ≡ false)
          ⊎ (w.ledger.armed ≡ true)
          ⊎ (w.ledger.starting ≡ true))
      × ((overtaken ≡ true)
          ⊎ (w.ledger.armed ≡ (is_running w.layer.lpl_state && not w.ledger.starting)))
lpl_completion fresh r = let (i, v) = Reach-Inv fresh r in (i.balance, i.sends, i.ends, v.timed)

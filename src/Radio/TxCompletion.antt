-- ===== src/Radio/TxCompletion.antt =====
-- Every packet given to the radio is reported exactly once.
use linux_cc2520_driver.Prelude.{ℕ, ◌+◌, ◌≡◌, Bool, true, false, Option, none, some, Buf, arith}
use linux_cc2520_driver.Radio.State.{
  State, idle, tx, tx_sfd_done, tx_2_rx, config, TxCallback, init,
}
use linux_cc2520_driver.Radio.Config.{start, on, off}
use linux_cc2520_driver.Radio.Tx.{tx_packet, tx_check, tx_written, tx_flushed, sfd_occurred}
use linux_cc2520_driver.Radio.TxWorld.{
  TxWorld, begin, Step, send, check, written, flushed, sfd, starts, turns_on, turns_off, Reach,
  here, next,
}

-- How many packets a state stands for.
abbrev pub load : State → ℕ
load idle = 0
load config = 0
load _ = 1

-- Whether a state has an SPI message under way.
abbrev pub wants_spi : State → Bool
wants_spi tx = true
wants_spi tx_sfd_done = true
wants_spi _ = false

-- The states between two handlers.
abbrev pub is_resting : State → Bool
is_resting tx_2_rx = false
is_resting config = false
is_resting _ = true

abbrev pub is_some : Option TxCallback → Bool
is_some none = false
is_some (some cb) = true

pub record Inv (w : TxWorld) : Type 0 where
  pub resting : is_resting w.radio.radio_state ≡ true
  pub spi_under_way : is_some w.spi ≡ wants_spi w.radio.radio_state
  pub balance : w.accepted ≡ w.completed + load w.radio.radio_state

pub begin-Inv : (i t r : Buf) → Inv (begin i t r)
unfolding init
begin-Inv i t r = ground arith

pub Step-Inv : {w u : TxWorld} → Step w u → Inv w → Inv u
unfolding tx_packet tx_check tx_written tx_flushed sfd_occurred start on off
Step-Inv (send buf len r es e eu) v = ground arith
Step-Inv (check fifo r es g e eu) v = ground arith
Step-Inv (written x r es g e eu) v = ground arith
Step-Inv (flushed r es g e eu) v = ground arith
Step-Inv (sfd t high r es e eu) v = ground arith
Step-Inv (starts r es e eu) v = ground arith
Step-Inv (turns_on r es e eu) v = ground arith
Step-Inv (turns_off r es e eu) v = ground arith

Reach-Inv : {s w : TxWorld} → Inv s → Reach s w → Inv w
Reach-Inv v here = v
Reach-Inv v (next r st) = Step-Inv st (Reach-Inv v r)

-- From initialisation on, under any interleaving: the packets reported are those taken but for the
-- one that a radio in a transmit state holds; an SPI message is under way exactly until the
-- message has been written; and no handler leaves the radio in the states CONFIG or TX_2_RX.
pub radio_completion :
    (in_fresh tx_fresh rx_fresh : Buf) {w : TxWorld}
    → Reach (begin in_fresh tx_fresh rx_fresh) w
    → (w.accepted ≡ w.completed + load w.radio.radio_state)
      × (is_some w.spi ≡ wants_spi w.radio.radio_state)
      × (is_resting w.radio.radio_state ≡ true)
radio_completion i t r reach =
    let v = Reach-Inv (begin-Inv i t r) reach in (v.balance, v.spi_under_way, v.resting)

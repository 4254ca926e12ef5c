-- ===== src/Radio/Shared/Lost.antt =====
-- The settings that an ioctl makes while a message is under way.
use linux_cc2520_driver.Prelude.{
  ℕ, ◌+◌, ◌≡◌, refl, sym, ◌∙◌, ap, true, none, some, Buf, length, blocked, arith,
}
use linux_cc2520_driver.Config.{spi_buff_size, pkt_buff_size}
use linux_cc2520_driver.Radio.State.{Radio, TxCallback}
use linux_cc2520_driver.Radio.Config.{start, on, off, set_channel, set_address, set_txpower}
use linux_cc2520_driver.Radio.Tx.{tx_packet, sfd_occurred}
use linux_cc2520_driver.Radio.TxWorld as Engine
use linux_cc2520_driver.Radio.TxWorld.{
  TxWorld, send, check, written, flushed, sfd, starts, turns_on, turns_off,
}
use linux_cc2520_driver.Radio.TxCompletion.{wants_spi, is_some}
use linux_cc2520_driver.Radio.Shared.{Shared, fill, fill_all}
use linux_cc2520_driver.Radio.Shared.World.{
  Engaged, begin, Reach, Setting, channel, address, txpower, apply,
}
use linux_cc2520_driver.Radio.Shared.Owned.{Reach-Inv}

-- The radio waits for a completion that does not come.
pub record Stuck (before w : TxWorld) : Type 0 where
  pub free : w.spi ≡ none
  pub waits : wants_spi w.radio.radio_state ≡ true
  pub completed : w.completed ≡ before.completed
  pub accepted : w.accepted ≡ before.accepted

pub Step-Stuck : {b w u : TxWorld} → Engine.Step w u → Stuck b w → Stuck b u
unfolding tx_packet sfd_occurred start on off
Step-Stuck (send buf len r es e eu) v = ground arith
Step-Stuck (check fifo r es g e eu) v = ground arith
Step-Stuck (written x r es g e eu) v = ground arith
Step-Stuck (flushed r es g e eu) v = ground arith
Step-Stuck (sfd t high r es e eu) v = ground arith
Step-Stuck (starts r es e eu) v = ground arith
Step-Stuck (turns_on r es e eu) v = ground arith
Step-Stuck (turns_off r es e eu) v = ground arith

Reach-Stuck : {b s w : TxWorld} → Stuck b s → Engine.Reach s w → Stuck b w
Reach-Stuck v Engine.here = v
Reach-Stuck v (Engine.next r st) = Step-Stuck st (Reach-Stuck v r)

-- A setting rewrites `msg` for a message of its own, without a callback of the driver, in every state.
pub apply-free :
    (setting : Setting) (r : Radio) (s : Shared)
    → ((apply setting r).0.radio_state ≡ r.radio_state)
      × ((fill_all (apply setting r).1 s).complete ≡ none)
unfolding apply set_channel set_address set_txpower fill fill_all
apply-free (channel c) r s = (refl, refl)
apply-free (address a b c) r s = (refl, refl)
apply-free (txpower power) r s = (refl, refl)

-- What the bus leaves to the driver when a setting is made: the radio's variables, and the callback that
-- it finds in `msg`.
abbrev pub after_setting : Setting → Engaged → TxWorld
after_setting setting p = record p.world {
  radio = (apply setting p.world.radio).0;
  spi = (fill_all (apply setting p.world.radio).1 p.shared).complete;
}

pub setting-Stuck :
    (setting : Setting) (p : Engaged)
    → wants_spi p.world.radio.radio_state ≡ true
    → Stuck p.world (after_setting setting p)
setting-Stuck setting p waits =
    let (state, callback) = apply-free setting p.world.radio p.shared in
    record {
      free = callback;
      waits = ap wants_spi state ∙ waits;
      completed = refl;
      accepted = refl;
    }

-- If the channel, the addresses or the transmit power are set while a message of the transmit engine is
-- under way, from whatever state reached without such a setting: in every run that follows, whatever
-- SFD, the bus and the callers do, the packet is not reported, and each further call of
-- `cc2520_radio_tx`, `cc2520_radio_start`, `cc2520_radio_on` and `cc2520_radio_off` spins.
pub setting_loses :
    (tx_fresh in_fresh tx_r_fresh rx_r_fresh : Buf)
    → length tx_fresh ≡ spi_buff_size
    → length tx_r_fresh ≡ pkt_buff_size
    → {p : Engaged} → Reach (begin tx_fresh in_fresh tx_r_fresh rx_r_fresh) p
    → (cb : TxCallback) → p.world.spi ≡ some cb
    → (setting : Setting) {w : TxWorld} → Engine.Reach (after_setting setting p) w
    → (buf : Buf) (len : ℕ)
    → (w.accepted ≡ w.completed + 1)
      × (w.completed ≡ p.world.completed)
      × (tx_packet w.radio buf len ≡ blocked)
      × (start w.radio ≡ blocked)
      × (on w.radio ≡ blocked)
      × (off w.radio ≡ blocked)
unfolding tx_packet start on off
setting_loses t i b r ht hb {p} reach cb e setting {w} run buf len =
    let v = (Reach-Inv t i b r ht hb reach).engine in
    let waits : wants_spi p.world.radio.radio_state ≡ true = sym v.spi_under_way ∙ ap is_some e in
    let stuck = Reach-Stuck (setting-Stuck setting p waits) run in
    let owed : p.world.accepted ≡ p.world.completed + 1 = ground (arith, v.balance, waits) in
    (
      omega (arith, owed, stuck.completed, stuck.accepted),
      stuck.completed,
      ground (arith, stuck.waits),
      ground (arith, stuck.waits),
      ground (arith, stuck.waits),
      ground (arith, stuck.waits),
    )

-- ===== src/Radio/Shared/World.antt =====
-- The transmit engine with the memory that its messages share. The three settings of the radio, which
-- take no lock, stand apart in `Setting`.
use linux_cc2520_driver.Prelude.{ℕ, ◌≡◌, none, List, [], Buf}
use linux_cc2520_driver.Radio.State.{Radio, RadioEffect}
use linux_cc2520_driver.Radio.Config.{set_channel, set_address, set_txpower}
use linux_cc2520_driver.Radio.TxWorld as Engine
use linux_cc2520_driver.Radio.TxWorld.{
  TxWorld, send, check, written, flushed, sfd, starts, turns_on, turns_off,
}
use linux_cc2520_driver.Radio.Shared.{Shared, fill_all}

abbrev pub effects : {w u : TxWorld} → Engine.Step w u → List RadioEffect
effects (send buf len r es e eu) = es
effects (check fifo r es g e eu) = es
effects (written x r es g e eu) = es
effects (flushed r es g e eu) = es
effects (sfd t high r es e eu) = es
effects (starts r es e eu) = es
effects (turns_on r es e eu) = es
effects (turns_off r es e eu) = es

pub record Engaged : Type 0 where
  pub world : TxWorld
  pub shared : Shared

-- `tx_fresh` is what `kmalloc` returned for `tx_buf`.
abbrev pub begin : Buf → Buf → Buf → Buf → Engaged
begin tx_fresh in_fresh tx_r_fresh rx_r_fresh = record {
  world = Engine.begin in_fresh tx_r_fresh rx_r_fresh;
  shared = record { tx_buf = tx_fresh; transfers = []; complete = none };
}

pub data Reach (s : Engaged) : Engaged → Type 0 where
  here : Reach s s
  next :
      {p q : Engaged} {u : TxWorld}
      → Reach s p
      → (st : Engine.Step p.world u)
      → q ≡ record { world = u; shared = fill_all (effects st) p.shared }
      → Reach s q

-- The functions that an ioctl calls without the radio's lock.
pub data Setting : Type 0 where
  channel : ℕ → Setting
  address : ℕ → ℕ → ℕ → Setting
  txpower : ℕ → Setting

unfoldable pub apply : Setting → Radio → Radio × List RadioEffect
apply (channel c) r = set_channel r c
apply (address short_addr extended_addr pan_id) r = set_address r short_addr extended_addr pan_id
apply (txpower power) r = set_txpower r power

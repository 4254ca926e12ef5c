-- ===== src/Stack/Lost.antt =====
-- An ioctl that sets the channel, the addresses or the transmit power while a packet of a write is on its
-- way to the chip: the message of the transmit engine and its callback are gone, and what follows from
-- that in the layers above.
use linux_cc2520_driver.Prelude.{
  ℕ, false, Option, Buf, ◌≡◌, refl, sym, ◌∙◌, ap, true, some, blocked, arith,
}
use linux_cc2520_driver.Sack
use linux_cc2520_driver.Device.{write_begin, write_end}
use linux_cc2520_driver.Radio.State.{TxCallback}
use linux_cc2520_driver.Radio.Shared.{Shared}
use linux_cc2520_driver.Radio.Shared.World.{Setting}
use linux_cc2520_driver.Radio.Shared.Lost.{Stuck, setting-Stuck, after_setting}
use linux_cc2520_driver.Radio.TxCompletion as RadioTx
use linux_cc2520_driver.Stack.{Stack, Fresh, Coupled, Moves, Reach}
use linux_cc2520_driver.Stack.Conservation.{Reach-Inv}
use linux_cc2520_driver.Stack.Still.{
  Layers, Still, Moves-Layers, Moves-Stuck, Moves-Still, sends-Still, Still-radio,
}

record Frozen (b u : Stack) : Type 0 where
  layers : Layers u
  radio : Stuck b.radio u.radio
  still : Still b.radio.completed b.device.answers u

Moves-Frozen : {b w u : Stack} → Moves w u → Coupled u → Frozen b w → Frozen b u
Moves-Frozen m k v = record {
  layers = Moves-Layers m v.layers;
  radio = Moves-Stuck m v.radio;
  still = Moves-Still m k v.layers v.radio.completed v.still;
}

-- What follows the setting: steps of the stack, in any order.
pub data Run (s : Stack) : Stack → Type 0 where
  here : Run s s
  next : {w u : Stack} → Run s w → Moves w u → Coupled u → Run s u

Run-Frozen : {b s u : Stack} → Frozen b s → Run s u → Frozen b u
Run-Frozen v here = v
Run-Frozen v (next r m k) = Moves-Frozen m k (Run-Frozen v r)

-- The stack after an ioctl has made the setting.
abbrev pub after_ioctl : Setting → Shared → Stack → Stack
after_ioctl setting s w = record w {
  radio = after_setting setting (record { world = w.radio; shared = s });
}

-- If the channel, the addresses or the transmit power are set while the packet of a write is on its way to
-- the chip (sack.c sends it, and a message of the transmit engine is under way), in any state that the
-- stack has reached with LPL and CSMA left enabled: in every run that follows, whatever the layers,
-- timers, received packets and writers do, the packet is never reported to the device; the write waits
-- for ever, and no other write gets past it.
pub write_lost :
    {f : Fresh} {w : Stack}
    → Reach f w
    → (cb : TxCallback) → w.radio.spi ≡ some cb
    → w.sack.layer.sack_state ≡ Sack.tx
    → (setting : Setting) (s : Shared) {u : Stack} → Run (after_ioctl setting s w) u
    → (buf : Option Buf) (len : ℕ)
    → (u.device.answers ≡ w.device.answers)
      × (u.device.sending ≡ 1)
      × (write_end u.device.device len ≡ blocked)
      × (write_begin u.device.device false false buf len ≡ blocked)
unfolding write_end write_begin
write_lost {w = w} r cb under_way e setting s {u} run buf len =
    let i = Reach-Inv r in
    let waits : RadioTx.wants_spi w.radio.radio.radio_state ≡ true =
      sym i.radio.spi_under_way ∙ ap RadioTx.is_some under_way in
    let still = sends-Still r e (ground (arith, waits)) in
    let lost = setting-Stuck setting (record { world = w.radio; shared = s }) waits in
    let v : Frozen (after_ioctl setting s w) u =
      Run-Frozen
        (record {
          layers = record { device = i.device; lpl = i.lpl; csma = i.csma; sack = i.sack };
          radio = record {
            free = lost.free;
            waits = lost.waits;
            completed = refl;
            accepted = refl;
          };
          still = Still-radio _ still;
        })
        run in
    (
      v.still.unanswered,
      v.still.device_sends,
      ground (arith, v.layers.device.own, v.layers.device.exclusive, v.still.device_sends),
      ground (arith, v.layers.device.own, v.layers.device.exclusive, v.still.device_sends),
    )

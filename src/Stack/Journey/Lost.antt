-- ===== src/Stack/Journey/Lost.antt =====
-- A channel that is set while a packet is on its way to the chip.
use linux_cc2520_driver.Prelude.{◌≡◌, refl, false, some, none, [], blocked, replicate, arith}
use linux_cc2520_driver.Device.{write_begin, write_end}
use linux_cc2520_driver.Radio.Config
use linux_cc2520_driver.Radio.State.{continue_tx_check}
use linux_cc2520_driver.Radio.Tx
use linux_cc2520_driver.Radio.TxWorld as RadioMachine
use linux_cc2520_driver.Radio.Shared.{Shared}
use linux_cc2520_driver.Radio.Shared.World.{channel, apply}
use linux_cc2520_driver.Stack.{Stack, radio_moves}
use linux_cc2520_driver.Stack.Counts.{Reach-stack}
use linux_cc2520_driver.Stack.Lost.{Run, here, next, after_ioctl, write_lost}
use linux_cc2520_driver.Stack.Journey.{transmitting}
use linux_cc2520_driver.Stack.Tests.{broadcast}

abbrev unused : Shared
unused = record { tx_buf = replicate 256 0; transfers = []; complete = none }

-- SFD falls, since another frame has been heard.
heard : (u : Stack) × Run (after_ioctl (channel 11) unused transmitting.0.stack) u
unfolding transmitting Tx.sfd_occurred apply Config.set_channel
heard = (_, next here (radio_moves _ (RadioMachine.sfd 99 false _ _ refl refl) refl) (ground arith))

write_lost_example :
    (heard.0.device.answers ≡ transmitting.0.stack.device.answers)
    × (heard.0.device.sending ≡ 1)
    × (write_end heard.0.device.device 4 ≡ blocked)
    × (write_begin heard.0.device.device false false (some broadcast) 4 ≡ blocked)
unfolding transmitting
write_lost_example =
    write_lost (Reach-stack transmitting.1) continue_tx_check refl refl (channel 11) unused heard.1
      (some broadcast) 4

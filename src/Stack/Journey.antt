-- ===== src/Stack/Journey.antt =====
-- The bytes of a packet from the write to the transmit FIFO.
mod Arrival
mod Acknowledged
mod Lost
use linux_cc2520_driver.Prelude.{
  ◌≡◌, refl, true, false, some, [], ◌∷◌, memcpy, take, drop, replicate, arith,
}
use linux_cc2520_driver.Device.World as DeviceMachine
use linux_cc2520_driver.Lpl.World as LplMachine
use linux_cc2520_driver.Csma.World as CsmaMachine
use linux_cc2520_driver.Sack.World as SackMachine
use linux_cc2520_driver.Radio.TxWorld as RadioMachine
use linux_cc2520_driver.Device
use linux_cc2520_driver.Lpl
use linux_cc2520_driver.Csma
use linux_cc2520_driver.Sack
use linux_cc2520_driver.Radio.State
use linux_cc2520_driver.Radio.Tx
use linux_cc2520_driver.Radio.Frames.{fifo}
use linux_cc2520_driver.Stack.Cargo.{
  Cargo, device_carries, lpl_carries, csma_carries, sack_carries, radio_carries, Reach, here, next,
}
use linux_cc2520_driver.Stack.Payload.{stack_payload}
use linux_cc2520_driver.Csma.Progress.{IsConfigured}
use linux_cc2520_driver.Stack.Sizes.{IsAllocated}
use linux_cc2520_driver.Stack.Liveness.{Completes, stack_comes_through}
use linux_cc2520_driver.Stack.Tests.{fresh, broadcast}

written : (w : Cargo) × Reach fresh w
unfolding Device.init Lpl.init Csma.init Sack.init State.init Device.write_begin Device.write_locked
    memcpy
written = (
  _,
  next here
      (device_carries _ (DeviceMachine.begins false false (some broadcast) 4 _ _ _ refl refl) refl)
      (ground arith),
)

sensing : (w : Cargo) × Reach fresh w
unfolding Device.init Lpl.init Csma.init Sack.init State.init Lpl.tx_calls Lpl.call_enabled
    Csma.tx_packet Csma.tx_enabled Csma.get_backoff memcpy written
sensing = (
  _,
  next
      (next written.1 (lpl_carries _ (LplMachine.send _ _ _ _ _ refl refl refl) [] refl refl)
        (ground arith))
      (csma_carries _ (CsmaMachine.send _ _ 7 _ _ refl refl) [] refl refl) (ground arith),
)

pub transmitting : (w : Cargo) × Reach fresh w
unfolding Device.init Lpl.init Csma.init Sack.init State.init Csma.timer_cb Csma.wq Sack.tx_packet
    Sack.tx_locked memcpy sensing Tx.tx_packet Tx.begin_tx State.lock
transmitting = (
  _,
  next
      (next
        (next
          (next sensing.1 (csma_carries _ (CsmaMachine.fire true 0 _ _ refl refl refl) [] refl refl)
            (ground arith))
          (csma_carries _ (CsmaMachine.work _ _ refl refl refl) [] refl refl) (ground arith))
        (sack_carries _ (SackMachine.send _ _ _ _ refl refl) [] refl refl) (ground arith))
      (radio_carries _ (RadioMachine.send _ _ _ _ refl refl) [] refl refl) (ground arith),
)

stack_payload_example : fifo (Tx.tx_message transmitting.0.stack.radio.radio true) ≡ broadcast
unfolding transmitting
stack_payload_example = stack_payload true transmitting.1 refl (omega arith)

fresh-IsAllocated : IsAllocated fresh
fresh-IsAllocated = record {
  device_tx = refl;
  lpl_tx = refl;
  csma_tx = refl;
  sack_ack = refl;
  sack_tx = refl;
  radio_tx = refl;
}

transmitting-IsConfigured : IsConfigured transmitting.0.stack.csma.layer
unfolding transmitting Csma.init
transmitting-IsConfigured = record {
  init_room = omega arith;
  cong_room = omega arith;
  init_small = omega arith;
  cong_small = omega arith;
  buffer = refl;
}

-- The radio transmits, and waits for its SPI message.
stack_comes_through_example : Completes 25 transmitting.0
unfolding transmitting
stack_comes_through_example =
    stack_comes_through fresh-IsAllocated transmitting.1 transmitting-IsConfigured refl

-- ===== src/Stack/Tests.antt =====
-- A packet on its way through the stack, and the theorems at its states.
use linux_cc2520_driver.Prelude.{
  ◌≤◌, ◌≡◌, refl, true, false, some, [], ◌∷◌, Buf, memcpy, replicate, arith,
}
use linux_cc2520_driver.Device.World as DeviceMachine
use linux_cc2520_driver.Lpl.World as LplMachine
use linux_cc2520_driver.Csma.World as CsmaMachine
use linux_cc2520_driver.Sack.World as SackMachine
use linux_cc2520_driver.Device
use linux_cc2520_driver.Lpl
use linux_cc2520_driver.Csma
use linux_cc2520_driver.Sack
use linux_cc2520_driver.Radio.State
use linux_cc2520_driver.Stack.{
  Stack, device_moves, lpl_moves, csma_moves, sack_moves, Fresh, Reach, here, next,
}
use linux_cc2520_driver.Stack.Conservation.{within, stack_conservation}

abbrev pub fresh : Fresh
fresh = record {
  device_tx = replicate 127 0;
  device_rx = replicate 127 0;
  lpl_tx = replicate 127 0;
  csma_tx = replicate 127 0;
  sack_ack = replicate 6 0;
  sack_tx = replicate 127 0;
  sack_rx = replicate 127 0;
  radio_in = replicate 127 0;
  radio_tx = replicate 127 0;
  radio_rx = replicate 127 0;
}

-- A broadcast of 4 bytes.
abbrev pub broadcast : Buf
broadcast = 5 ∷ 0x41 ∷ 0x88 ∷ 7 ∷ []

written : (w : Stack) × Reach fresh w
unfolding Device.init Lpl.init Csma.init Sack.init State.init Device.write_begin Device.write_locked
    memcpy
written = (
  _,
  next here
      (device_moves _ (DeviceMachine.begins false false (some broadcast) 4 _ _ _ refl refl) refl)
      (ground arith),
)

listening : (w : Stack) × Reach fresh w
unfolding Device.init Lpl.init Csma.init Sack.init State.init Lpl.tx_calls Lpl.call_enabled memcpy
    written
listening = (
  _,
  next written.1 (lpl_moves _ (LplMachine.send broadcast 4 _ _ _ refl refl refl) refl)
      (ground arith),
)

-- The channel is clear at the first sensing, and sack.c has called the radio.
on_its_way : (w : Stack) × Reach fresh w
unfolding Device.init Lpl.init Csma.init Sack.init State.init Csma.tx_packet Csma.tx_enabled
    Csma.get_backoff Csma.timer_cb Csma.wq Sack.tx_packet Sack.tx_locked memcpy listening
on_its_way = (
  _,
  next
      (next
        (next
          (next listening.1 (csma_moves _ (CsmaMachine.send broadcast 4 7 _ _ refl refl) refl)
            (ground arith))
          (csma_moves _ (CsmaMachine.fire true 0 _ _ refl refl refl) refl) (ground arith))
        (csma_moves _ (CsmaMachine.work _ _ refl refl refl) refl) (ground arith))
      (sack_moves _ (SackMachine.send broadcast 4 _ _ refl refl) refl) (ground arith),
)

stack_conservation_example :
    (1 ≤ 1)
    × (1 ≤ 1)
    × (1 ≤ 1)
    × (1 ≤ 1)
    × (1 ≡ within 1 1 1 0 0)
    × (1 ≡ within 1 1 1 0 0)
    × (1 ≡ within 1 1 1 0 0)
    × (1 ≡ within 1 0 0 0 0)
unfolding on_its_way
stack_conservation_example = stack_conservation on_its_way.1

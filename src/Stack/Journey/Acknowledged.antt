-- ===== src/Stack/Journey/Acknowledged.antt =====
-- A packet that asks for an acknowledgement, from the write to its result.
use linux_cc2520_driver.Prelude.{
  ◌≡◌, ◌↔◌, refl, true, false, some, [], ◌∷◌, ◌⊎◌, Buf, memcpy, arith,
}
use linux_cc2520_driver.Packet.{requires_ack_wait, is_ack, is_ack_to, header_fcf, header_dsn}
use linux_cc2520_driver.Device.World as DeviceMachine
use linux_cc2520_driver.Lpl.World as LplMachine
use linux_cc2520_driver.Csma.World as CsmaMachine
use linux_cc2520_driver.Sack.World as SackMachine
use linux_cc2520_driver.Radio.TxWorld as RadioMachine
use linux_cc2520_driver.Device
use linux_cc2520_driver.Device.{value}
use linux_cc2520_driver.Lpl
use linux_cc2520_driver.Csma
use linux_cc2520_driver.Sack
use linux_cc2520_driver.Radio.State
use linux_cc2520_driver.Radio.Tx
use linux_cc2520_driver.Stack.Cargo.{
  device_carries, lpl_carries, csma_carries, sack_carries, radio_carries,
}
use linux_cc2520_driver.Stack.Contract.{Promises, under_way, finished, free, phase, stack_contract}
use linux_cc2520_driver.Stack.Told.{tells, untold, Told, Reach, here, Reach-after}
use linux_cc2520_driver.Stack.Reports.{stack_acknowledged, stack_reports}
use linux_cc2520_driver.Stack.Tests.{fresh}

abbrev request : Buf
request = 5 ∷ 0x61 ∷ 0x88 ∷ 7 ∷ []

abbrev acknowledgement : Buf
acknowledgement = 5 ∷ 2 ∷ 0 ∷ 7 ∷ 0 ∷ 0 ∷ []

written : (w : Told) × Reach fresh w
unfolding Device.init Lpl.init Csma.init Sack.init State.init memcpy Device.write_begin
    Device.write_locked
written = (
  _,
  Reach-after here
      (device_carries _ (DeviceMachine.begins false false (some request) 4 _ _ _ refl refl) refl) []
      [] [] refl refl refl (ground arith),
)

listening : (w : Told) × Reach fresh w
unfolding Device.init Lpl.init Csma.init Sack.init State.init memcpy Lpl.tx_calls Lpl.call_enabled
    written
listening = (
  _,
  Reach-after written.1 (lpl_carries _ (LplMachine.send _ _ _ _ _ refl refl refl) [] refl refl) []
      [] [] refl refl refl (ground arith),
)

timed : (w : Told) × Reach fresh w
unfolding Device.init Lpl.init Csma.init Sack.init State.init memcpy Lpl.tx_starts listening
timed = (
  _,
  Reach-after listening.1 (lpl_carries _ (LplMachine.arm refl refl) [] refl refl) [] [] [] refl refl
      refl (ground arith),
)

sensing : (w : Told) × Reach fresh w
unfolding Device.init Lpl.init Csma.init Sack.init State.init memcpy Csma.tx_packet Csma.tx_enabled
    Csma.get_backoff timed
sensing = (
  _,
  Reach-after timed.1 (csma_carries _ (CsmaMachine.send _ _ 7 _ _ refl refl) [] refl refl) [] [] []
      refl refl refl (ground arith),
)

clear : (w : Told) × Reach fresh w
unfolding Device.init Lpl.init Csma.init Sack.init State.init memcpy Csma.timer_cb sensing
clear = (
  _,
  Reach-after sensing.1 (csma_carries _ (CsmaMachine.fire true 0 _ _ refl refl refl) [] refl refl)
      [] [] [] refl refl refl (ground arith),
)

passed : (w : Told) × Reach fresh w
unfolding Device.init Lpl.init Csma.init Sack.init State.init memcpy Csma.wq clear
passed = (
  _,
  Reach-after clear.1 (csma_carries _ (CsmaMachine.work _ _ refl refl refl) [] refl refl) [] [] []
      refl refl refl (ground arith),
)

sending : (w : Told) × Reach fresh w
unfolding Device.init Lpl.init Csma.init Sack.init State.init memcpy Sack.tx_packet Sack.tx_locked
    passed
sending = (
  _,
  Reach-after passed.1 (sack_carries _ (SackMachine.send _ _ _ _ refl refl) [] refl refl) [] [] []
      refl refl refl (ground arith),
)

stopped : (w : Told) × Reach fresh w
unfolding Device.init Lpl.init Csma.init Sack.init State.init memcpy Tx.tx_packet Tx.begin_tx
    State.lock sending
stopped = (
  _,
  Reach-after sending.1 (radio_carries _ (RadioMachine.send _ _ _ _ refl refl) [] refl refl) [] []
      [] refl refl refl (ground arith),
)

checked : (w : Told) × Reach fresh w
unfolding Device.init Lpl.init Csma.init Sack.init State.init memcpy Tx.tx_check stopped
checked = (
  _,
  Reach-after stopped.1 (radio_carries _ (RadioMachine.check false _ _ refl refl refl) [] refl refl)
      [] [] [] refl refl refl (ground arith),
)

loaded : (w : Told) × Reach fresh w
unfolding Device.init Lpl.init Csma.init Sack.init State.init memcpy Tx.tx_written State.unlock
    State.tx_unlock_spi checked
loaded = (
  _,
  Reach-after checked.1 (radio_carries _ (RadioMachine.written 0 _ _ refl refl refl) [] refl refl)
      [] [] [] refl refl refl (ground arith),
)

sent : (w : Told) × Reach fresh w
unfolding Device.init Lpl.init Csma.init Sack.init State.init memcpy Tx.sfd_occurred State.unlock
    State.tx_unlock_sfd loaded
sent = (
  _,
  Reach-after loaded.1 (radio_carries _ (RadioMachine.sfd 0 false _ _ refl refl) [] refl refl) [] []
      [] refl refl refl (ground arith),
)

waiting : (w : Told) × Reach fresh w
unfolding Device.init Lpl.init Csma.init Sack.init State.init memcpy Sack.tx_done Sack.done_locked
    requires_ack_wait header_fcf sent
waiting = (
  _,
  Reach-after sent.1
      (sack_carries _ (SackMachine.finish 0 _ _ (omega arith) refl refl) [] refl refl) [] [] [] refl
      refl refl (ground arith),
)

acknowledged : (w : Told) × Reach fresh w
unfolding Device.init Lpl.init Csma.init Sack.init State.init memcpy Sack.rx_done is_ack is_ack_to
    requires_ack_wait header_fcf header_dsn waiting
acknowledged = (
  _,
  Reach-after waiting.1
      (sack_carries _ (SackMachine.receive acknowledgement 6 _ _ refl refl) [] refl refl) [] [] []
      refl refl refl (ground arith),
)

reported : (w : Told) × Reach fresh w
unfolding Device.init Lpl.init Csma.init Sack.init State.init memcpy Csma.tx_done acknowledged
reported = (
  _,
  Reach-after acknowledged.1
      (csma_carries _ (CsmaMachine.finish 0 _ _ (omega arith) refl refl) [] refl refl) [] [] [] refl
      refl refl (ground arith),
)

completed : (w : Told) × Reach fresh w
unfolding Device.init Lpl.init Csma.init Sack.init State.init memcpy Lpl.tx_done requires_ack_wait
    header_fcf reported
completed = (
  _,
  Reach-after reported.1
      (lpl_carries _ (LplMachine.finish 0 _ _ (omega arith) refl refl) [] refl refl) [] [] [] refl
      refl refl (ground arith),
)

told : (w : Told) × Reach fresh w
unfolding Device.init Lpl.init Csma.init Sack.init State.init memcpy Device.tx_done completed
told = (
  _,
  Reach-after completed.1 (device_carries _ (DeviceMachine.completes 0 (omega arith) refl) refl) []
      [] [] refl refl refl (ground arith),
)

stack_acknowledged_example : (value 4 ≡ value 4) ↔ (true ≡ true)
unfolding told Device.write_end
stack_acknowledged_example = stack_acknowledged 4 told.1 (omega arith) refl (omega arith) refl

stack_reports_example : (value 4 ≡ value 4) ⊎ (value 4 ≡ value 252)
unfolding told Device.write_end
stack_reports_example = stack_reports 4 told.1 refl

stack_contract_example :
    Promises (under_way request true) (finished request true 0) × (phase (untold fresh) ≡ free)
unfolding told completed Device.tx_done
stack_contract_example = stack_contract {u = told.0} completed.1 (
    tells (device_carries _ (DeviceMachine.completes 0 (omega arith) refl) refl) [] [] [] refl refl
      refl refl refl refl refl)

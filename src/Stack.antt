-- ===== src/Stack.antt =====
-- module.c: `setup_bindings` puts the layers on top of one another. A layer moves by a step of its
-- own machine, and a layer runs a call of a neighbour only when the neighbour has made it and it
-- has not run: its counts never pass the neighbour's (`Coupled`). Calls on their way may be overtaken
-- by timers, interrupts and calls in the other direction. The filter of unique.c passes `tx` and
-- `tx_done` on at once, so it is part of the way between the device and lpl.c. The bytes and the
-- status of a call are any. A write may be woken before its call has returned from starting the timer of
-- lpl.c; lpl.c takes the next packet only after that.
pub mod Conservation
pub mod Cargo
pub mod Counts
pub mod Contents
pub mod Payload
pub mod Upward
pub mod Delivery
pub mod Sizes
pub mod Advance
pub mod Cases
pub mod Progress
pub mod Distance
pub mod Liveness
pub mod Told
pub mod Says
pub mod Truth
pub mod Busy
pub mod Settled
pub mod Reports
pub mod Contract
pub mod Still
pub mod Lost
pub mod Link
pub mod Bypass
mod Tests
mod Journey
use linux_cc2520_driver.Prelude.{ℕ, ◌+◌, ◌≤◌, ◌≡◌, Buf}
use linux_cc2520_driver.Ledger.{World, sent}
use linux_cc2520_driver.Lpl.{Lpl}
use linux_cc2520_driver.Csma.{Csma}
use linux_cc2520_driver.Sack.{Sack}
use linux_cc2520_driver.Device.World as DeviceMachine
use linux_cc2520_driver.Lpl.World as LplMachine
use linux_cc2520_driver.Csma.World as CsmaMachine
use linux_cc2520_driver.Sack.World as SackMachine
use linux_cc2520_driver.Radio.TxWorld as RadioMachine

pub record Stack : Type 0 where
  pub device : DeviceMachine.DeviceWorld
  pub lpl : World Lpl
  pub csma : World Csma
  pub sack : World Sack
  pub radio : RadioMachine.TxWorld

-- Packets that the device has handed down.
abbrev pub handed : Stack → ℕ
handed w = w.device.sending + w.device.answers

-- Each binding of `setup_bindings` on the way down and on the way up: calls run, calls made.
pub record Coupled (w : Stack) : Type 0 where
  pub interface_bottom_tx : w.lpl.ledger.accepted ≤ handed w
  pub unique_top_tx_done : w.device.answers ≤ w.lpl.ledger.completed
  pub lpl_bottom_tx : w.csma.ledger.accepted ≤ sent w.lpl.ledger
  pub csma_top_tx_done : w.lpl.ledger.answers ≤ w.csma.ledger.completed
  pub csma_bottom_tx : w.sack.ledger.accepted ≤ sent w.csma.ledger
  pub sack_top_tx_done : w.csma.ledger.answers ≤ w.sack.ledger.completed
  pub sack_bottom_tx : w.radio.accepted ≤ sent w.sack.ledger
  pub radio_top_tx_done : w.sack.ledger.answers ≤ w.radio.completed

pub data Moves (w u : Stack) : Type 0 where
  device_moves :
      (d : DeviceMachine.DeviceWorld)
      → DeviceMachine.Step w.device d
      → u ≡ record w { device = d }
      → Moves w u
  lpl_moves : (l : World Lpl) → LplMachine.Step w.lpl l → u ≡ record w { lpl = l } → Moves w u
  csma_moves : (c : World Csma) → CsmaMachine.Step w.csma c → u ≡ record w { csma = c } → Moves w u
  sack_moves : (s : World Sack) → SackMachine.Step w.sack s → u ≡ record w { sack = s } → Moves w u
  radio_moves :
      (r : RadioMachine.TxWorld)
      → RadioMachine.Step w.radio r
      → u ≡ record w { radio = r }
      → Moves w u

-- What `kmalloc` returned to each layer.
pub record Fresh : Type 0 where
  pub device_tx : Buf
  pub device_rx : Buf
  pub lpl_tx : Buf
  pub csma_tx : Buf
  pub sack_ack : Buf
  pub sack_tx : Buf
  pub sack_rx : Buf
  pub radio_in : Buf
  pub radio_tx : Buf
  pub radio_rx : Buf

abbrev pub begin : Fresh → Stack
begin f = record {
  device = DeviceMachine.begin f.device_tx f.device_rx;
  lpl = LplMachine.start f.lpl_tx;
  csma = CsmaMachine.start f.csma_tx;
  sack = SackMachine.start f.sack_ack f.sack_tx f.sack_rx;
  radio = RadioMachine.begin f.radio_in f.radio_tx f.radio_rx;
}

pub data Reach (f : Fresh) : Stack → Type 0 where
  here : Reach f (begin f)
  next : {w u : Stack} → Reach f w → Moves w u → Coupled u → Reach f u

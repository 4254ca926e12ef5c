-- ===== src/Stack/Cargo.antt =====
-- The stack with the bytes of the calls on their way down: a layer runs the oldest call that waits for
-- it, with the bytes with which it was made. Completions carry a status of the layer below, which
-- may be any, so they are counted as in `Stack`.
use linux_cc2520_driver.Prelude.{ℕ, ◌≡◌, List, [], ◌++◌}
use linux_cc2520_driver.Ledger.{World}
use linux_cc2520_driver.Parcels.{Parcel, parcels, Taken}
use linux_cc2520_driver.Lpl.{Lpl}
use linux_cc2520_driver.Csma.{Csma}
use linux_cc2520_driver.Sack.{Sack}
use linux_cc2520_driver.Device.World as DeviceMachine
use linux_cc2520_driver.Lpl.World as LplMachine
use linux_cc2520_driver.Csma.World as CsmaMachine
use linux_cc2520_driver.Sack.World as SackMachine
use linux_cc2520_driver.Radio.TxWorld as RadioMachine
use linux_cc2520_driver.Device.Payload as DevicePayload
use linux_cc2520_driver.Lpl.Payload as LplPayload
use linux_cc2520_driver.Csma.Payload as CsmaPayload
use linux_cc2520_driver.Sack.Payload as SackPayload
use linux_cc2520_driver.Radio.Payload as RadioPayload
use linux_cc2520_driver.Stack.{Stack, Coupled, Fresh, begin}

pub record Cargo : Type 0 where
  pub stack : Stack
  -- calls of `tx` on their way to each layer, the oldest first
  pub to_lpl : List Parcel
  pub to_csma : List Parcel
  pub to_sack : List Parcel
  pub to_radio : List Parcel
  -- the packet of the last write that has been accepted
  pub packet : List ℕ

abbrev pub unladen : Fresh → Cargo
unladen f = record {
  stack = begin f;
  to_lpl = [];
  to_csma = [];
  to_sack = [];
  to_radio = [];
  packet = [];
}

pub data Carries (w u : Cargo) : Type 0 where
  device_carries :
      (d : DeviceMachine.DeviceWorld) (st : DeviceMachine.Step w.stack.device d)
      → u ≡ record w {
        stack = record w.stack { device = d };
        to_lpl = w.to_lpl ++ parcels (DevicePayload.effects st);
        packet = DevicePayload.written st w.packet;
      }
      → Carries w u
  lpl_carries :
      (l : World Lpl) (st : LplMachine.Step w.stack.lpl l) (rest : List Parcel)
      → Taken (LplPayload.input st) w.to_lpl rest
      → u ≡ record w {
        stack = record w.stack { lpl = l };
        to_lpl = rest;
        to_csma = w.to_csma ++ parcels (LplPayload.effects st);
      }
      → Carries w u
  csma_carries :
      (c : World Csma) (st : CsmaMachine.Step w.stack.csma c) (rest : List Parcel)
      → Taken (CsmaPayload.input st) w.to_csma rest
      → u ≡ record w {
        stack = record w.stack { csma = c };
        to_csma = rest;
        to_sack = w.to_sack ++ parcels (CsmaPayload.effects st);
      }
      → Carries w u
  sack_carries :
      (s : World Sack) (st : SackMachine.Step w.stack.sack s) (rest : List Parcel)
      → Taken (SackPayload.input st) w.to_sack rest
      → u ≡ record w {
        stack = record w.stack { sack = s };
        to_sack = rest;
        to_radio = w.to_radio ++ parcels (SackPayload.effects st);
      }
      → Carries w u
  radio_carries :
      (r : RadioMachine.TxWorld) (st : RadioMachine.Step w.stack.radio r) (rest : List Parcel)
      → Taken (RadioPayload.input st) w.to_radio rest
      → u ≡ record w { stack = record w.stack { radio = r }; to_radio = rest }
      → Carries w u

pub data Reach (f : Fresh) : Cargo → Type 0 where
  here : Reach f (unladen f)
  next : {w u : Cargo} → Reach f w → Carries w u → Coupled u.stack → Reach f u

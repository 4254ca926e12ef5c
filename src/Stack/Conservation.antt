-- ===== src/Stack/Conservation.antt =====
-- No packet is lost, doubled or overtaken between the layers.
use linux_cc2520_driver.Prelude.{ℕ, ◌+◌, ◌-◌, ◌≤◌, ◌≡◌, sym, subst, arith}
use linux_cc2520_driver.Ledger.{sent}
use linux_cc2520_driver.Device.Exclusion as Device
use linux_cc2520_driver.Lpl.Completion as Lpl
use linux_cc2520_driver.Csma.Completion as Csma
use linux_cc2520_driver.Sack.Completion as Sack
use linux_cc2520_driver.Radio.TxCompletion as Radio
use linux_cc2520_driver.Stack.{
  Stack, Coupled, Moves, device_moves, lpl_moves, csma_moves, sack_moves, radio_moves, Fresh, begin,
  Reach, here, next, handed,
}

-- Each layer's invariant, which holds for it alone.
pub record Inv (w : Stack) : Type 0 where
  pub device : Device.Inv w.device
  pub lpl : Lpl.Inv w.lpl
  pub csma : Csma.Inv w.csma
  pub sack : Sack.Inv w.sack
  pub radio : Radio.Inv w.radio

begin-Inv : (f : Fresh) → Inv (begin f)
begin-Inv f = record {
  device = Device.begin-Inv f.device_tx f.device_rx;
  lpl = Lpl.start-Inv f.lpl_tx;
  csma = Csma.start-Inv f.csma_tx;
  sack = Sack.start-Inv f.sack_ack f.sack_tx f.sack_rx;
  radio = Radio.begin-Inv f.radio_in f.radio_tx f.radio_rx;
}

Moves-Inv : {w u : Stack} → Moves w u → Inv w → Inv u
Moves-Inv (device_moves x st eu) v = subst Inv (sym eu) (record {
  device = Device.Step-Inv st v.device;
  lpl = v.lpl;
  csma = v.csma;
  sack = v.sack;
  radio = v.radio;
})
Moves-Inv (lpl_moves x st eu) v = subst Inv (sym eu) (record {
  device = v.device;
  lpl = Lpl.Step-Inv st v.lpl;
  csma = v.csma;
  sack = v.sack;
  radio = v.radio;
})
Moves-Inv (csma_moves x st eu) v = subst Inv (sym eu) (record {
  device = v.device;
  lpl = v.lpl;
  csma = Csma.Step-Inv st v.csma;
  sack = v.sack;
  radio = v.radio;
})
Moves-Inv (sack_moves x st eu) v = subst Inv (sym eu) (record {
  device = v.device;
  lpl = v.lpl;
  csma = v.csma;
  sack = Sack.Step-Inv st v.sack;
  radio = v.radio;
})
Moves-Inv (radio_moves x st eu) v = subst Inv (sym eu) (record {
  device = v.device;
  lpl = v.lpl;
  csma = v.csma;
  sack = v.sack;
  radio = Radio.Step-Inv st v.radio;
})

begin-Coupled : (f : Fresh) → Coupled (begin f)
begin-Coupled f = ground arith

pub Reach-Inv : {f : Fresh} {w : Stack} → Reach f w → Inv w
Reach-Inv {f} here = begin-Inv f
Reach-Inv (next r m c) = Moves-Inv m (Reach-Inv r)

pub Reach-Coupled : {f : Fresh} {w : Stack} → Reach f w → Coupled w
Reach-Coupled {f} here = begin-Coupled f
Reach-Coupled (next r m c) = c

-- Where a packet of the device can be: on its way from one layer to the next, held by the layer, or
-- its completion on the way up.
abbrev pub within : ℕ → ℕ → ℕ → ℕ → ℕ → ℕ
within made run held completed answered = (made - run) + held + (completed - answered)

-- In every state that the stack reaches from initialisation on with LPL and CSMA left enabled, whatever the layers, timers, the
-- radio and received packets do and in whatever order: the device and every layer have at most one
-- transmission outstanding, and it is at exactly one place below: a call on its way to the next layer,
-- the packet that this layer holds, or a completion on its way back. So a call on its way finds the
-- next layer with no packet from above, and a completion on its way finds the layer waiting for it.
pub stack_conservation :
    {f : Fresh} {w : Stack}
    → Reach f w
    → (w.device.sending ≤ 1)
      × (w.lpl.ledger.sending ≤ 1)
      × (w.csma.ledger.sending ≤ 1)
      × (w.sack.ledger.sending ≤ 1)
      × (w.device.sending
          ≡ within
              (handed w)
              w.lpl.ledger.accepted
              (Lpl.load w.lpl.layer.lpl_state)
              w.lpl.ledger.completed
              w.device.answers)
      × (w.lpl.ledger.sending
          ≡ within
              (sent w.lpl.ledger)
              w.csma.ledger.accepted
              (Csma.load w.csma.layer.csma_state)
              w.csma.ledger.completed
              w.lpl.ledger.answers)
      × (w.csma.ledger.sending
          ≡ within
              (sent w.csma.ledger)
              w.sack.ledger.accepted
              (Sack.load w.sack.layer.sack_state)
              w.sack.ledger.completed
              w.csma.ledger.answers)
      × (w.sack.ledger.sending
          ≡ within
              (sent w.sack.ledger)
              w.radio.accepted
              (Radio.load w.radio.radio.radio_state)
              w.radio.completed
              w.sack.ledger.answers)
stack_conservation r =
    let v = Reach-Inv r in
    let c = Reach-Coupled r in
    (
      omega (arith, v.device.exclusive, v.device.own),
      ground (arith, v.lpl.sends),
      ground (arith, v.csma.busy),
      ground (arith, v.sack.sends),
      omega (arith, v.lpl.balance, c.interface_bottom_tx, c.unique_top_tx_done),
      omega (arith, v.csma.balance, v.csma.busy, c.lpl_bottom_tx, c.csma_top_tx_done),
      omega (arith, v.sack.balance, c.csma_bottom_tx, c.sack_top_tx_done),
      omega (arith, v.radio.balance, c.sack_bottom_tx, c.radio_top_tx_done),
    )

-- ===== src/Stack/Still.antt =====
-- The stack while the radio does not report the packet that it has been given.
use linux_cc2520_driver.Prelude.{ℕ, ◌≡◌, refl, subst, ap, arith}
use linux_cc2520_driver.Ledger.{sent}
use linux_cc2520_driver.Sack
use linux_cc2520_driver.Radio.Shared.Lost.{Stuck, Step-Stuck}
use linux_cc2520_driver.Radio.TxWorld as RadioMachine
use linux_cc2520_driver.Device.Exclusion as DeviceTx
use linux_cc2520_driver.Radio.TxCompletion as RadioTx
use linux_cc2520_driver.Lpl.Completion as LplTx
use linux_cc2520_driver.Csma.Completion as CsmaTx
use linux_cc2520_driver.Sack.Completion as SackTx
use linux_cc2520_driver.Lpl.Payload as LplPayload
use linux_cc2520_driver.Csma.Payload as CsmaPayload
use linux_cc2520_driver.Lpl.Advance as LplMoves
use linux_cc2520_driver.Csma.Advance as CsmaMoves
use linux_cc2520_driver.Sack.Advance as SackMoves
use linux_cc2520_driver.Device.Advance as DeviceMoves
use linux_cc2520_driver.Device.Hold as Device
use linux_cc2520_driver.Lpl.Hold as Lpl
use linux_cc2520_driver.Csma.Hold as Csma
use linux_cc2520_driver.Sack.Hold as SackHold
use linux_cc2520_driver.Stack.{
  Stack, Fresh, Coupled, Moves, device_moves, lpl_moves, csma_moves, sack_moves, radio_moves, Reach,
  handed,
}
use linux_cc2520_driver.Stack.Conservation.{Reach-Inv, Reach-Coupled, stack_conservation}

-- The layers' invariants, without the radio's.
pub record Layers (u : Stack) : Type 0 where
  pub device : DeviceTx.Inv u.device
  pub lpl : LplTx.Inv u.lpl
  pub csma : CsmaTx.Inv u.csma
  pub sack : SackTx.Inv u.sack

-- The packet is below each layer, and all that has been called has run.
pub record Still (completed answers : ℕ) (u : Stack) : Type 0 where
  pub sack_sends : u.sack.layer.sack_state ≡ Sack.tx
  pub csma_sends : u.csma.ledger.sending ≡ 1
  pub lpl_sends : u.lpl.ledger.sending ≡ 1
  pub device_sends : u.device.sending ≡ 1
  pub radio_done : u.sack.ledger.answers ≡ completed
  pub sack_done : u.sack.ledger.completed ≡ u.csma.ledger.answers
  pub csma_done : u.csma.ledger.completed ≡ u.lpl.ledger.answers
  pub lpl_done : u.lpl.ledger.completed ≡ u.device.answers
  pub lpl_asked : u.lpl.ledger.accepted ≡ handed u
  pub csma_asked : u.csma.ledger.accepted ≡ sent u.lpl.ledger
  pub sack_asked : u.sack.ledger.accepted ≡ sent u.csma.ledger
  pub unanswered : u.device.answers ≡ answers

pub Moves-Layers : {w u : Stack} → Moves w u → Layers w → Layers u
Moves-Layers (device_moves d st eu) v =
    rw eu
      (record { device = DeviceTx.Step-Inv st v.device; lpl = v.lpl; csma = v.csma; sack = v.sack })
Moves-Layers (lpl_moves l st eu) v =
    rw eu
      (record { device = v.device; lpl = LplTx.Step-Inv st v.lpl; csma = v.csma; sack = v.sack })
Moves-Layers (csma_moves c st eu) v =
    rw eu
      (record { device = v.device; lpl = v.lpl; csma = CsmaTx.Step-Inv st v.csma; sack = v.sack })
Moves-Layers (sack_moves s st eu) v =
    rw eu
      (record { device = v.device; lpl = v.lpl; csma = v.csma; sack = SackTx.Step-Inv st v.sack })
Moves-Layers (radio_moves r st eu) v =
    rw eu (record { device = v.device; lpl = v.lpl; csma = v.csma; sack = v.sack })

pub Moves-Stuck :
    {b : RadioMachine.TxWorld} {w u : Stack} → Moves w u → Stuck b w.radio → Stuck b u.radio
Moves-Stuck (device_moves d st eu) v = rw eu v
Moves-Stuck (lpl_moves l st eu) v = rw eu v
Moves-Stuck (csma_moves c st eu) v = rw eu v
Moves-Stuck (sack_moves s st eu) v = rw eu v
Moves-Stuck (radio_moves r st eu) v = rw eu (Step-Stuck st v)

module _ {completed answers : ℕ} {w u : Stack} where
  pub Moves-Still :
      Moves w u
      → Coupled u
      → Layers w
      → w.radio.completed ≡ completed
      → Still completed answers w
      → Still completed answers u
  Moves-Still (device_moves d st eu) k i r v =
      let c = subst Coupled eu k in
      let up = DeviceMoves.Step-answers st in
      let told : d.answers ≡ w.device.answers =
        omega (arith, up, c.unique_top_tx_done, v.lpl_done) in
      let sends = Device.Step-holds st i.device v.device_sends told in
      rw eu (ground (arith, told, sends))
  Moves-Still (lpl_moves l st eu) k i r v =
      let c = subst Coupled eu k in
      let (_, into) = LplPayload.Step-counts st in
      let (up, _) = LplMoves.Step-answers st in
      let asked : l.ledger.accepted ≡ w.lpl.ledger.accepted =
        omega (arith, into, c.interface_bottom_tx, v.lpl_asked) in
      let told : l.ledger.answers ≡ w.lpl.ledger.answers =
        omega (arith, up, c.csma_top_tx_done, v.csma_done) in
      let holds = Lpl.Step-holds st i.lpl asked told in rw eu (ground (arith, holds, asked, told))
  Moves-Still (csma_moves l st eu) k i r v =
      let c = subst Coupled eu k in
      let (_, into) = CsmaPayload.Step-counts st in
      let (up, _) = CsmaMoves.Step-answers st in
      let asked : l.ledger.accepted ≡ w.csma.ledger.accepted =
        omega (arith, into, c.lpl_bottom_tx, v.csma_asked) in
      let told : l.ledger.answers ≡ w.csma.ledger.answers =
        omega (arith, up, c.sack_top_tx_done, v.sack_done) in
      let holds = Csma.Step-holds st i.csma v.csma_sends asked told in
      rw eu (ground (arith, holds, asked, told))
  Moves-Still (sack_moves l st eu) k i r v =
      let c = subst Coupled eu k in
      let (up, _) = SackMoves.Step-answers st in
      let told : l.ledger.answers ≡ w.sack.ledger.answers =
        omega (arith, up, c.radio_top_tx_done, v.radio_done, r) in
      let holds = SackHold.Step-holds st i.sack v.sack_sends told in
      rw eu (ground (arith, holds, told))
  Moves-Still (radio_moves x st eu) k i r v = rw eu (ground arith)

pub sends-Still :
    {f : Fresh} {w : Stack}
    → Reach f w
    → w.sack.layer.sack_state ≡ Sack.tx
    → RadioTx.load w.radio.radio.radio_state ≡ 1
    → Still w.radio.completed w.device.answers w
sends-Still {w = w} r e busy =
    let v = Reach-Inv r in
    let c = Reach-Coupled r in
    let (bd, bl, bc, bs, fd, fl, fc, fs) = stack_conservation r in
    let loaded : SackTx.load w.sack.layer.sack_state ≡ 1 = ap SackTx.load e in
    let on_air : SackTx.on_air w.sack.layer.sack_state ≡ 1 = ap SackTx.on_air e in
    let csma : w.csma.ledger.sending ≡ 1 = omega (arith, bc, fc, loaded) in
    let csma_load : CsmaTx.load w.csma.layer.csma_state ≡ 1 = ground (arith, v.csma.busy, csma) in
    let lpl : w.lpl.ledger.sending ≡ 1 = omega (arith, bl, fl, csma_load) in
    let lpl_load : LplTx.load w.lpl.layer.lpl_state ≡ 1 = omega (arith, v.lpl.sends, lpl) in
    let device : w.device.sending ≡ 1 = omega (arith, bd, fd, lpl_load) in
    record {
      sack_sends = e;
      csma_sends = csma;
      lpl_sends = lpl;
      device_sends = device;
      radio_done = omega (arith, fs, busy, bs, c.radio_top_tx_done);
      sack_done = omega (arith, fc, loaded, csma, c.sack_top_tx_done);
      csma_done = omega (arith, fl, csma_load, lpl, c.csma_top_tx_done);
      lpl_done = omega (arith, fd, lpl_load, device, c.unique_top_tx_done);
      lpl_asked = omega (arith, fd, lpl_load, device, c.interface_bottom_tx);
      csma_asked = omega (arith, fl, csma_load, lpl, c.lpl_bottom_tx);
      sack_asked = omega (arith, fc, loaded, csma, c.csma_bottom_tx);
      unanswered = refl;
    }

-- Nothing of it is about the radio.
pub Still-radio :
    {completed answers : ℕ} {w : Stack} (r : RadioMachine.TxWorld)
    → Still completed answers w
    → Still completed answers (record w { radio = r })
Still-radio r v = ground arith

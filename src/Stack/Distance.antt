-- ===== src/Stack/Distance.antt =====
-- How much the stack has still to do for what is under way.
use linux_cc2520_driver.Prelude.{
  ℕ, ◌+◌, ◌-◌, ◌*◌, ◌≤◌, ◌<◌, ◌≡◌, sym, subst, true, [], length, length-append, arith,
}
use linux_cc2520_driver.Parcels.{parcels, Taken-length}
use linux_cc2520_driver.Device.World as DeviceMachine
use linux_cc2520_driver.Lpl.Payload as LplPayload
use linux_cc2520_driver.Csma.Payload as CsmaPayload
use linux_cc2520_driver.Sack.Payload as SackPayload
use linux_cc2520_driver.Radio.Payload as RadioPayload
use linux_cc2520_driver.Lpl.Advance as Lpl
use linux_cc2520_driver.Csma.Advance as Csma
use linux_cc2520_driver.Sack.Advance as Sack
use linux_cc2520_driver.Radio.Advance as Radio
use linux_cc2520_driver.Device.Advance as Device
use linux_cc2520_driver.Stack.{Fresh, Coupled}
use linux_cc2520_driver.Stack.Conservation.{Inv, Reach-Inv, stack_conservation}
use linux_cc2520_driver.Stack.Cargo.{
  Cargo, Carries, device_carries, lpl_carries, csma_carries, sack_carries, radio_carries, Reach,
}
use linux_cc2520_driver.Stack.Counts.{Reach-stack, Reach-Counts}
use linux_cc2520_driver.Stack.Advance.{is_progress}

-- How far the packet and the acknowledgements under way are from their completion: the calls on their
-- way to each layer, what it holds, and its completions on their way.
abbrev pub distance : Cargo → ℕ
distance w =
    let s = w.stack in
    17 * length w.to_lpl
    + Lpl.cost s.lpl
    + (s.lpl.ledger.completed - s.device.answers)
    + (13 * length w.to_csma + Csma.cost s.csma + (s.csma.ledger.completed - s.lpl.ledger.answers))
    + (9 * length w.to_sack + Sack.cost s.sack + (s.sack.ledger.completed - s.csma.ledger.answers))
    + (6 * length w.to_radio + Radio.cost s.radio + (s.radio.completed - s.sack.ledger.answers))

-- Each such step leaves less to do.
pub Carries-distance :
    {w u : Cargo} (m : Carries w u)
    → is_progress m ≡ true
    → Inv w.stack
    → Coupled w.stack
    → Coupled u.stack
    → distance u < distance w
unfolding linux_cc2520_driver.Device.tx_done
Carries-distance {w} (device_carries d (DeviceMachine.completes status g ed) eu) p i c k =
    let k' = subst (λ x. Coupled x.stack) eu k in
    subst (λ x. distance x < distance w) (sym eu)
      (omega (
        arith,
        length-append w.to_lpl [],
        Device.Step-answers (DeviceMachine.completes status g ed),
        c.unique_top_tx_done,
        k'.unique_top_tx_done,
      ))
Carries-distance (device_carries d (DeviceMachine.begins a b x len e how es o ed) eu) p i c k =
    absurd (ground (arith, p))
Carries-distance (device_carries d (DeviceMachine.ends n e x g o ed) eu) p i c k =
    absurd (ground (arith, p))
Carries-distance (device_carries d (DeviceMachine.receives buf len e o ed) eu) p i c k =
    absurd (ground (arith, p))
Carries-distance {w} (lpl_carries l st rest t eu) p i c k =
    let k' = subst (λ x. Coupled x.stack) eu k in
    let (up, done) = Lpl.Step-answers st in
    subst (λ x. distance x < distance w) (sym eu)
      (omega (
        arith,
        Lpl.Step-cost st i.lpl p,
        Taken-length (LplPayload.input st) w.to_lpl rest t,
        length-append w.to_csma (parcels (LplPayload.effects st)),
        up,
        done,
        c.unique_top_tx_done,
        k'.csma_top_tx_done,
      ))
Carries-distance {w} (csma_carries l st rest t eu) p i c k =
    let k' = subst (λ x. Coupled x.stack) eu k in
    let (up, done) = Csma.Step-answers st in
    subst (λ x. distance x < distance w) (sym eu)
      (omega (
        arith,
        Csma.Step-cost st i.csma p,
        Taken-length (CsmaPayload.input st) w.to_csma rest t,
        length-append w.to_sack (parcels (CsmaPayload.effects st)),
        up,
        done,
        c.csma_top_tx_done,
        k'.sack_top_tx_done,
      ))
Carries-distance {w} (sack_carries l st rest t eu) p i c k =
    let k' = subst (λ x. Coupled x.stack) eu k in
    let (up, done) = Sack.Step-answers st in
    subst (λ x. distance x < distance w) (sym eu)
      (omega (
        arith,
        Sack.Step-cost st i.sack p,
        Taken-length (SackPayload.input st) w.to_sack rest t,
        length-append w.to_radio (parcels (SackPayload.effects st)),
        up,
        done,
        c.sack_top_tx_done,
        k'.radio_top_tx_done,
      ))
Carries-distance {w} (radio_carries l st rest t eu) p i c k =
    let k' = subst (λ x. Coupled x.stack) eu k in
    subst (λ x. distance x < distance w) (sym eu)
      (omega (
        arith,
        Radio.Step-cost st i.radio p,
        Taken-length (RadioPayload.input st) w.to_radio rest t,
        c.radio_top_tx_done,
        k'.radio_top_tx_done,
      ))

-- At most one packet and one acknowledgement are under way.
pub Reach-distance : {f : Fresh} {w : Cargo} → Reach f w → distance w ≤ 25
Reach-distance {f} {w} r =
    let v = Reach-Inv (Reach-stack r) in
    let n = Reach-Counts r in
    let (d, l, c, s, fd, fl, fc, fs) = stack_conservation (Reach-stack r) in
    omega (
      arith,
      d,
      l,
      c,
      s,
      fd,
      fl,
      fc,
      fs,
      n.lpl,
      n.csma,
      n.sack,
      n.radio,
      v.csma.busy,
      v.lpl.sends,
      Lpl.cost-load w.stack.lpl v.lpl,
      Radio.cost-load w.stack.radio v.radio,
    )

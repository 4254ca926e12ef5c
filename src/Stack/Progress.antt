-- ===== src/Stack/Progress.antt =====
-- The step that the stack can make while a write waits for its packet.
use linux_cc2520_driver.Prelude.{◌<◌, ◌≡◌, inl, inr, refl, true, false, Bool-cases, length, arith}
use linux_cc2520_driver.Lpl.World.{is_running}
use linux_cc2520_driver.Lpl.Advance as LplMoves
use linux_cc2520_driver.Csma.Advance as CsmaMoves
use linux_cc2520_driver.Csma.Progress.{IsConfigured}
use linux_cc2520_driver.Radio.State
use linux_cc2520_driver.Device.World as DeviceMachine
use linux_cc2520_driver.Sack.Advance as SackMoves
use linux_cc2520_driver.Radio.Advance as RadioMoves
use linux_cc2520_driver.Stack.{Fresh, Coupled}
use linux_cc2520_driver.Stack.Conservation.{Reach-Inv, Reach-Coupled, stack_conservation}
use linux_cc2520_driver.Stack.Cargo.{Cargo, device_carries, Reach}
use linux_cc2520_driver.Stack.Counts.{Reach-stack, Reach-Counts}
use linux_cc2520_driver.Stack.Sizes.{IsAllocated, Reach-IsSized}
use linux_cc2520_driver.Stack.Advance.{
  Advances, lpl-Advances, csma-Advances, sack-Advances, radio-Advances,
}
use linux_cc2520_driver.Stack.Cases.{
  queue_cases, radio_cases, sack_cases, csma_cases, lpl_cases, waiting_cases,
}

module _ {f : Fresh} {w : Cargo} (a : IsAllocated f) (r : Reach f w) where
  radio_idle : 0 < length w.to_radio → w.stack.radio.radio.radio_state ≡ State.idle
  radio_idle more =
      let v = Reach-Inv (Reach-stack r) in
      let n = Reach-Counts r in
      let (_, _, _, bound, _, _, _, flow) = stack_conservation (Reach-stack r) in
      elim (radio_cases w.stack.radio.radio.radio_state v.radio.resting) [
        | inl (idle, _) ↦ idle
        | inr busy ↦ absurd (omega (arith, bound, flow, more, n.radio, busy))
      ]

  -- A packet or an acknowledgement that sack.c has sent: the radio's, or its completion on the way.
  below_sack : w.stack.sack.ledger.sending ≡ 1 → Advances w
  below_sack b =
      let v = Reach-Inv (Reach-stack r) in
      let c = Reach-Coupled (Reach-stack r) in
      let n = Reach-Counts r in
      let s = Reach-IsSized a r in
      let flow = (stack_conservation (Reach-stack r)).7 in
      elim (queue_cases w.to_radio s.to_radio) [
        | inr (p, rest, e, fits, more) ↦
            let idle = radio_idle more in
            let (u, st, ei, ep) = RadioMoves.send_can w.stack.radio p.0 p.1 idle s.radio fits in
            radio-Advances u st rest c n s.radio (rw ei e) ep
        | inl none_waits ↦ elim (radio_cases w.stack.radio.radio.radio_state v.radio.resting) [
          | inr busy ↦
              let (u, st, ei, ep) = RadioMoves.transmit_can w.stack.radio v.radio busy in
              radio-Advances u st w.to_radio c n s.radio (rw ei refl) ep
          | inl (_, free) ↦
              let (u, st, ei, ea, ep) =
                SackMoves.finish_can w.stack.sack 0 v.sack (omega (arith, b)) in
              sack-Advances u st w.to_sack c n (rw ei refl)
                (omega (arith, ea, flow, b, none_waits, n.radio, free)) ep
        ]
      ]

  -- A packet that csma.c has sent: the acknowledgement layer's, or its completion on the way.
  below_csma : w.stack.csma.ledger.sending ≡ 1 → Advances w
  below_csma b =
      let v = Reach-Inv (Reach-stack r) in
      let c = Reach-Coupled (Reach-stack r) in
      let n = Reach-Counts r in
      let s = Reach-IsSized a r in
      let flow = (stack_conservation (Reach-stack r)).6 in
      elim (sack_cases w.stack.sack.layer.sack_state) [
        | inr (inl waits) ↦
            let (u, st, ei, ea, ep) =
              SackMoves.fire_can w.stack.sack v.sack (rw v.sack.timed waits) in
            sack-Advances u st w.to_sack c n (rw ei refl) (omega (arith, ea, c.radio_top_tx_done))
              ep
        | inr (inr on_air) ↦ below_sack (omega (arith, v.sack.sends, on_air))
        | inl (idle, free) ↦ elim (queue_cases w.to_sack s.to_sack) [
          | inr (p, rest, e, fits, more) ↦
              let (u, st, ei, ea, ep) =
                SackMoves.send_can w.stack.sack p.0 p.1 v.sack idle s.sack fits in
              sack-Advances u st rest c n (rw ei e) (omega (arith, ea, c.radio_top_tx_done)) ep
          | inl none_waits ↦
              let (u, st, ei, ea, ep) = CsmaMoves.finish_can w.stack.csma 0 (omega (arith, b)) in
              csma-Advances u st w.to_csma c n (rw ei refl)
                (omega (arith, ea, flow, b, none_waits, n.sack, free)) ep
        ]
      ]

  module _ (conf : IsConfigured w.stack.csma.layer) where
    -- A packet that lpl.c has sent: csma.c's, or its completion on the way.
    below_lpl :
        is_running w.stack.lpl.layer.lpl_state ≡ false → w.stack.lpl.ledger.sending ≡ 1 → Advances w
    below_lpl over b =
        let v = Reach-Inv (Reach-stack r) in
        let c = Reach-Coupled (Reach-stack r) in
        let n = Reach-Counts r in
        let s = Reach-IsSized a r in
        let flow = (stack_conservation (Reach-stack r)).5 in
        let l = w.stack.csma.ledger in
        elim (csma_cases w.stack.csma.layer.csma_state) [
          | inr busy ↦
              elim (waiting_cases l.armed l.queued l.sending (omega (arith, v.csma.busy, busy))) [
                | inl armed ↦
                    let (u, st, ei, ea, ep) = CsmaMoves.fire_can w.stack.csma armed in
                    csma-Advances u st w.to_csma c n (rw ei refl)
                      (omega (arith, ea, c.sack_top_tx_done)) ep
                | inr (inl queued) ↦
                    let (u, st, ei, ea, ep) = CsmaMoves.work_can w.stack.csma queued in
                    csma-Advances u st w.to_csma c n (rw ei refl)
                      (omega (arith, ea, c.sack_top_tx_done)) ep
                | inr (inr sending) ↦ below_csma sending
              ]
          | inl (idle, free) ↦ elim (queue_cases w.to_csma s.to_csma) [
            | inr (p, rest, e, fits, more) ↦
                let (u, st, ei, ea, ep) =
                  CsmaMoves.send_can w.stack.csma p.0 p.1 v.csma idle conf fits in
                csma-Advances u st rest c n (rw ei e) (omega (arith, ea, c.sack_top_tx_done)) ep
            | inl none_waits ↦
                let (u, st, ei, ea, ep) =
                  LplMoves.finish_can w.stack.lpl 0 over (omega (arith, b)) in
                lpl-Advances u st w.to_lpl c n (rw ei refl)
                  (omega (arith, ea, flow, b, none_waits, n.csma, free)) ep
          ]
        ]

-- The write whose packet lpl.c has completed is woken.
device-Advances :
    {w : Cargo}
    → Coupled w.stack
    → w.stack.device.answers < w.stack.lpl.ledger.completed
    → 0 < w.stack.device.sending
    → Advances w
unfolding linux_cc2520_driver.Device.tx_done
device-Advances {w} c pending b = (
  _,
  device_carries _ (DeviceMachine.completes 0 b refl) refl,
  refl,
  record {
    interface_bottom_tx = omega (arith, c.interface_bottom_tx, b);
    unique_top_tx_done = omega (arith, pending);
    lpl_bottom_tx = c.lpl_bottom_tx;
    csma_top_tx_done = c.csma_top_tx_done;
    csma_bottom_tx = c.csma_bottom_tx;
    sack_top_tx_done = c.sack_top_tx_done;
    sack_bottom_tx = c.sack_bottom_tx;
    radio_top_tx_done = c.radio_top_tx_done;
  },
)

-- In every state that the stack reaches from buffers of the allocated sizes with LPL and CSMA left
-- enabled, while a write waits for its packet and the bounds on the backoff are ones that csma.c can
-- compute with: some layer can run what waits for it, and its handler returns.
pub stack_progress :
    {f : Fresh} {w : Cargo}
    → IsAllocated f
    → Reach f w
    → IsConfigured w.stack.csma.layer
    → w.stack.device.sending ≡ 1
    → Advances w
stack_progress {f} {w} a r conf b =
    let v = Reach-Inv (Reach-stack r) in
    let c = Reach-Coupled (Reach-stack r) in
    let n = Reach-Counts r in
    let s = Reach-IsSized a r in
    let flow = (stack_conservation (Reach-stack r)).4 in
    elim (Bool-cases w.stack.lpl.ledger.starting) [
      | inl starting ↦
          let (u, st, ei, ea, ep) = LplMoves.arm_can w.stack.lpl starting in
          lpl-Advances u st w.to_lpl c n (rw ei refl) (omega (arith, ea, c.csma_top_tx_done)) ep
      | inr returned ↦ elim (queue_cases w.to_lpl s.to_lpl) [
        | inr (p, rest, e, fits, more) ↦
            let (u, st, ei, ea, ep) = LplMoves.send_can w.stack.lpl p.0 p.1 returned s.lpl fits in
            lpl-Advances u st rest c n (rw ei e) (omega (arith, ea, c.csma_top_tx_done)) ep
        | inl none_waits ↦ elim (lpl_cases w.stack.lpl.layer.lpl_state) [
          | inr busy ↦ elim (Bool-cases (is_running w.stack.lpl.layer.lpl_state)) [
            | inl running ↦
                let armed : w.stack.lpl.ledger.armed ≡ true =
                  ground (arith, v.lpl.ends, running, returned) in
                let (u, st, ei, ea, ep) = LplMoves.fire_can w.stack.lpl armed in
                lpl-Advances u st w.to_lpl c n (rw ei refl) (omega (arith, ea, c.csma_top_tx_done))
                  ep
            | inr over ↦ below_lpl a r conf over (omega (arith, v.lpl.sends, busy))
          ]
          | inl free ↦
              device-Advances c (omega (arith, flow, b, none_waits, n.lpl, free)) (omega (arith, b))
        ]
      ]
    ]

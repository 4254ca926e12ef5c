-- ===== src/Stack/Truth.antt =====
-- What the layers report of a packet, from sack.c up to the result of the write.
use linux_cc2520_driver.Prelude.{
  ℕ, ◌≡◌, inl, inr, refl, Bool, false, ◌||◌, List, [], ◌++◌, length, arith,
}
use linux_cc2520_driver.Parcels.{statuses, Taken-AllHold}
use linux_cc2520_driver.Statuses.{
  Heard, Heard-length, AllTrue, AllTrue-append, AllTrue-empty, AllTrue-acked, Heard-AllTrue,
}
use linux_cc2520_driver.Lpl.Payload as LplPayload
use linux_cc2520_driver.Csma.Payload as CsmaPayload
use linux_cc2520_driver.Sack.Payload as SackPayload
use linux_cc2520_driver.Sack.Completion as SackTx
use linux_cc2520_driver.Device.Payload as DevicePayload
use linux_cc2520_driver.Device
use linux_cc2520_driver.Device.Report as DeviceReport
use linux_cc2520_driver.Lpl.Report as Lpl
use linux_cc2520_driver.Csma.Report as Csma
use linux_cc2520_driver.Sack.Report as Sack
use linux_cc2520_driver.Stack.{Fresh}
use linux_cc2520_driver.Stack.Conservation.{Reach-Inv, stack_conservation}
use linux_cc2520_driver.Stack.Cargo
use linux_cc2520_driver.Stack.Cargo.{
  Cargo, unladen, Carries, device_carries, lpl_carries, csma_carries, sack_carries, radio_carries,
}
use linux_cc2520_driver.Stack.Counts.{Reach-stack}
use linux_cc2520_driver.Stack.Contents.{Reach-Contents}
use linux_cc2520_driver.Stack.Told.{
  Told, tells, device_hears, lpl_hears, csma_hears, lpl_tells, csma_tells, sack_tells, acked_after,
  Reach, here, next, Reach-cargo,
}
use linux_cc2520_driver.Stack.Says.{Says, Carries-Says}

pub record Truth (c : Cargo) (ls cs ss : List ℕ) (acked : Bool) : Type 0 where
  pub lpl : AllTrue c.packet acked ls
  pub csma : AllTrue c.packet acked cs
  pub sack : AllTrue c.packet acked ss
  pub holds : Sack.Holds c.packet c.stack.sack.layer
  pub result : DeviceReport.ResultTrue c.packet acked c.stack.device.device

-- While no write waits for its packet no completion is on its way, and sack.c has no packet.
idle-Says :
    {f : Fresh} {w : Cargo} {ls cs ss : List ℕ}
    → Cargo.Reach f w
    → Says w ls cs ss
    → w.stack.device.sending ≡ 0
    → (length ls ≡ 0)
      × (length cs ≡ 0)
      × (length ss ≡ 0)
      × (SackTx.load w.stack.sack.layer.sack_state ≡ 0)
idle-Says r n e =
    let v = Reach-Inv (Reach-stack r) in
    let c = stack_conservation (Reach-stack r) in
    (
      omega (arith, n.lpl, e, c.4),
      omega (arith, n.csma, e, c.4, c.5, v.lpl.sends),
      omega (arith, n.sack, e, c.4, c.5, c.6, v.lpl.sends, v.csma.busy),
      omega (arith, e, c.4, c.5, c.6, v.lpl.sends, v.csma.busy),
    )

-- A step makes no report that is not true.
Carries-Truth :
    {f : Fresh} {w u : Cargo}
    → Cargo.Reach f w
    → (m : Carries w u) (ls cs ss ll cl sl : List ℕ) (acked : Bool) → Says w ls cs ss
    → Heard (device_hears m) ls ll
    → Heard (lpl_hears m) cs cl
    → Heard (csma_hears m) ss sl
    → Truth w ls cs ss acked
    → Truth u (ll ++ lpl_tells m) (cl ++ csma_tells m) (sl ++ sack_tells m) (acked_after m acked)
Carries-Truth {w = w} r (device_carries d st eu) ls cs ss ll cl sl acked n hd hl hc h =
    let p = w.packet in
    let v = (Reach-Inv (Reach-stack r)).device in
    let (heard_true, left) = Heard-AllTrue p acked (DeviceReport.told st) ls ll hd h.lpl in
    let result = DeviceReport.Step-ResultTrue p acked st v h.result heard_true in
    elim (DeviceReport.Step-opens p st v) [
      | inr (same_packet, same) ↦
          rw (eu, same_packet, same)
            (record {
              lpl = AllTrue-append p acked ll [] left tt;
              csma = AllTrue-append p acked cl [] (rw hl h.csma) tt;
              sack = AllTrue-append p acked sl [] (rw hc h.sack) tt;
              holds = h.holds;
              result = rw (same_packet, same) at result;
            })
      | inl (opens, idle) ↦
          let p' = DevicePayload.written st p in
          let (no_ls, no_cs, no_ss, free) = idle-Says r n idle in
          rw (eu, opens)
            (record {
              lpl =
                  AllTrue-append p' false ll []
                    (AllTrue-empty p' false ll
                      (omega (arith, no_ls, Heard-length (DeviceReport.told st) ls ll hd)))
                    tt;
              csma = AllTrue-append p' false cl [] (AllTrue-empty p' false cl (rw hl no_cs)) tt;
              sack = AllTrue-append p' false sl [] (AllTrue-empty p' false sl (rw hc no_ss)) tt;
              holds = Sack.Holds-idle p' w.stack.sack.layer free;
              result = rw opens at result;
            })
    ]
Carries-Truth {w = w} r (lpl_carries l st rest t eu) ls cs ss ll cl sl acked n hd hl hc h =
    let p = w.packet in
    let v = (Reach-Inv (Reach-stack r)).lpl in
    let (heard_true, left) = Heard-AllTrue p acked (Lpl.told st) cs cl hl h.csma in
    let out = Lpl.Step-AllTrue p acked st v (Reach-Contents r).lpl heard_true in
    rw eu (record {
      lpl = AllTrue-append p acked ll (statuses (LplPayload.effects st)) (rw hd h.lpl) out;
      csma = AllTrue-append p acked cl [] left tt;
      sack = AllTrue-append p acked sl [] (rw hc h.sack) tt;
      holds = h.holds;
      result = h.result;
    })
Carries-Truth {w = w} r (csma_carries l st rest t eu) ls cs ss ll cl sl acked n hd hl hc h =
    let p = w.packet in
    let (heard_true, left) = Heard-AllTrue p acked (Csma.told st) ss sl hc h.sack in
    rw eu (record {
      lpl = AllTrue-append p acked ll [] (rw hd h.lpl) tt;
      csma =
          AllTrue-append p acked cl (statuses (CsmaPayload.effects st)) (rw hl h.csma)
            (Csma.Step-AllTrue p acked st heard_true);
      sack = AllTrue-append p acked sl [] left tt;
      holds = h.holds;
      result = h.result;
    })
Carries-Truth {w = w} r (sack_carries l st rest t eu) ls cs ss ll cl sl acked n hd hl hc h =
    let p = w.packet in
    let now = Sack.arrives p st in
    let v = (Reach-Inv (Reach-stack r)).sack in
    let (input, _) =
      Taken-AllHold p (SackPayload.input st) w.to_sack rest t (Reach-Contents r).to_sack in
    rw eu (record {
      lpl = AllTrue-append p (now || acked) ll [] (AllTrue-acked p acked now ll (rw hd h.lpl)) tt;
      csma = AllTrue-append p (now || acked) cl [] (AllTrue-acked p acked now cl (rw hl h.csma)) tt;
      sack =
          AllTrue-append p (now || acked) sl (statuses (SackPayload.effects st))
            (AllTrue-acked p acked now sl (rw hc h.sack)) (Sack.Step-AllTrue p acked st v h.holds);
      holds = Sack.Step-Holds p st h.holds input;
      result = DeviceReport.ResultTrue-acked p acked now w.stack.device.device h.result;
    })
Carries-Truth {w = w} r (radio_carries l st rest t eu) ls cs ss ll cl sl acked n hd hl hc h =
    let p = w.packet in
    rw eu (record {
      lpl = AllTrue-append p acked ll [] (rw hd h.lpl) tt;
      csma = AllTrue-append p acked cl [] (rw hl h.csma) tt;
      sack = AllTrue-append p acked sl [] (rw hc h.sack) tt;
      holds = h.holds;
      result = h.result;
    })

Says-untold : (f : Fresh) → Says (unladen f) [] [] []
Says-untold f = ground arith

Truth-untold : (f : Fresh) → Truth (unladen f) [] [] [] false
unfolding linux_cc2520_driver.Sack.init Device.init
Truth-untold f = record { lpl = tt; csma = tt; sack = tt; holds = refl; result = refl }

pub Reach-Says :
    {f : Fresh} {w : Told} → Reach f w → Says w.cargo w.lpl_says w.csma_says w.sack_says
Reach-Says {f} here = Says-untold f
Reach-Says (next {w} r (tells m ll cl sl hd hl hc el ec es ea) k) =
    rw (el, ec, es)
      (Carries-Says m w.lpl_says w.csma_says w.sack_says ll cl sl hd hl hc (Reach-Says r))

pub Reach-Truth :
    {f : Fresh} {w : Told} → Reach f w → Truth w.cargo w.lpl_says w.csma_says w.sack_says w.acked
Reach-Truth {f} here = Truth-untold f
Reach-Truth (next {w} r (tells m ll cl sl hd hl hc el ec es ea) k) =
    rw (el, ec, es, ea)
      (Carries-Truth (Reach-cargo r) m w.lpl_says w.csma_says w.sack_says ll cl sl w.acked
        (Reach-Says r) hd hl hc (Reach-Truth r))

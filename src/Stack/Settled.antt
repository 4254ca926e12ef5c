-- ===== src/Stack/Settled.antt =====
-- The stack from the acknowledgement of its packet to the next packet.
use mathlib.Core.Bool.{false≢true}
use linux_cc2520_driver.Prelude.{
  ℕ, ◌≡◌, ◌⊎◌, inl, inr, refl, sym, ap, ◌∙◌, Bool-cases, Bool, true, false, List, [], ◌++◌, length,
  length-append, arith,
}
use linux_cc2520_driver.Parcels.{statuses}
use linux_cc2520_driver.Statuses.{
  Heard, needs_ack, AllZero, AllZero-append, AllZero-empty, Heard-AllZero,
}
use linux_cc2520_driver.Lpl.Payload as LplPayload
use linux_cc2520_driver.Csma.Payload as CsmaPayload
use linux_cc2520_driver.Sack.Payload as SackPayload
use linux_cc2520_driver.Sack.Completion as SackTx
use linux_cc2520_driver.Device.Payload as DevicePayload
use linux_cc2520_driver.Ledger.{bit}
use linux_cc2520_driver.Device.Report as DeviceReport
use linux_cc2520_driver.Lpl.Report as Lpl
use linux_cc2520_driver.Csma.Report as Csma
use linux_cc2520_driver.Sack.Report as Sack
use linux_cc2520_driver.Stack.{Fresh}
use linux_cc2520_driver.Stack.Conservation.{Inv, Reach-Inv}
use linux_cc2520_driver.Stack.Cargo
use linux_cc2520_driver.Stack.Cargo.{
  Cargo, unladen, Carries, device_carries, lpl_carries, csma_carries, sack_carries, radio_carries,
}
use linux_cc2520_driver.Stack.Counts.{Reach-stack}
use linux_cc2520_driver.Stack.Busy.{busy-Says}
use linux_cc2520_driver.Stack.Contents.{Reach-Contents}
use linux_cc2520_driver.Stack.Told.{
  Told, device_opens, arrived, tells, device_hears, lpl_hears, csma_hears, lpl_tells, csma_tells,
  sack_tells, acked_after, Reach, here, next, Reach-cargo,
}
use linux_cc2520_driver.Stack.Says.{Says}
use linux_cc2520_driver.Parcels.{Taken-length, parcels, Parcel}
use linux_cc2520_driver.Stack.Truth.{Reach-Says, Reach-Truth}

pub record Settled (c : Cargo) (ls cs ss : List ℕ) : Type 0 where
  pub to_lpl : length c.to_lpl ≡ 0
  pub to_csma : length c.to_csma ≡ 0
  pub to_sack : length c.to_sack ≡ 0
  pub armed : c.stack.csma.ledger.armed ≡ false
  pub queued : c.stack.csma.ledger.queued ≡ false
  pub free : SackTx.load c.stack.sack.layer.sack_state ≡ 0
  pub lpl : AllZero ls
  pub csma : AllZero cs
  pub sack : AllZero ss
  pub result : DeviceReport.ResultZero c.stack.device.device

length-none : (ps qs : List Parcel) → length ps ≡ 0 → qs ≡ [] → length (ps ++ qs) ≡ 0
length-none ps qs e n = omega (arith, length-append ps qs, e, ap length n)

bit-eq-zero : (b : Bool) → bit b ≡ 0 → b ≡ false
bit-eq-zero b e = ground (arith, e)

-- The step at which the awaited acknowledgement arrives.
arrival-Settled :
    {f : Fresh} {w u : Cargo}
    → Cargo.Reach f w
    → (m : Carries w u) (ls cs ss ll cl sl : List ℕ) → Says w ls cs ss
    → needs_ack w.packet ≡ true
    → Sack.Holds w.packet w.stack.sack.layer
    → arrived m ≡ true
    → Heard (device_hears m) ls ll
    → Heard (lpl_hears m) cs cl
    → Heard (csma_hears m) ss sl
    → Settled u (ll ++ lpl_tells m) (cl ++ csma_tells m) (sl ++ sack_tells m)
arrival-Settled r (device_carries d st eu) ls cs ss ll cl sl n a h b hd hl hc =
    absurd (ground (arith, b))
arrival-Settled r (lpl_carries l st rest t eu) ls cs ss ll cl sl n a h b hd hl hc =
    absurd (ground (arith, b))
arrival-Settled r (csma_carries l st rest t eu) ls cs ss ll cl sl n a h b hd hl hc =
    absurd (ground (arith, b))
arrival-Settled r (radio_carries l st rest t eu) ls cs ss ll cl sl n a h b hd hl hc =
    absurd (ground (arith, b))
arrival-Settled {w = w} r (sack_carries s st rest t eu) ls cs ss ll cl sl n a h b hd hl hc =
    let v = Reach-Inv (Reach-stack r) in
    let (busy, said, free) = Sack.Step-arrives w.packet st a v.sack h b in
    let (no_sack, no_ss, still, no_csma, no_cs, no_lpl, no_ls, unsignalled) = busy-Says r n busy in
    let taken = Taken-length (SackPayload.input st) w.to_sack rest t in
    rw eu (record {
      to_lpl = no_lpl;
      to_csma = no_csma;
      to_sack = omega (arith, no_sack, taken);
      armed = bit-eq-zero w.stack.csma.ledger.armed (omega (arith, still));
      queued = bit-eq-zero w.stack.csma.ledger.queued (omega (arith, still));
      free = free;
      lpl = AllZero-append ll [] (AllZero-empty ll (rw hd no_ls)) tt;
      csma = AllZero-append cl [] (AllZero-empty cl (rw hl no_cs)) tt;
      sack =
          AllZero-append sl (statuses (SackPayload.effects st)) (AllZero-empty sl (rw hc no_ss))
            said;
      result = inl unsignalled;
    })

Carries-Settled :
    {f : Fresh} {w u : Cargo}
    → Cargo.Reach f w
    → (m : Carries w u) (ls cs ss ll cl sl : List ℕ) → needs_ack w.packet ≡ true
    → device_opens m ≡ false
    → Heard (device_hears m) ls ll
    → Heard (lpl_hears m) cs cl
    → Heard (csma_hears m) ss sl
    → Settled w ls cs ss
    → Settled u (ll ++ lpl_tells m) (cl ++ csma_tells m) (sl ++ sack_tells m)
Carries-Settled {w = w} r (device_carries d st eu) ls cs ss ll cl sl a o hd hl hc h =
    let (z, left) = Heard-AllZero (DeviceReport.told st) ls ll hd h.lpl in
    let (result, out) = DeviceReport.Step-ResultZero st o h.result z in
    rw eu (record {
      to_lpl = length-none w.to_lpl (parcels (DevicePayload.effects st)) h.to_lpl out;
      to_csma = h.to_csma;
      to_sack = h.to_sack;
      armed = h.armed;
      queued = h.queued;
      free = h.free;
      lpl = AllZero-append ll [] left tt;
      csma = AllZero-append cl [] (rw hl h.csma) tt;
      sack = AllZero-append sl [] (rw hc h.sack) tt;
      result = result;
    })
Carries-Settled {w = w} r (lpl_carries l st rest t eu) ls cs ss ll cl sl a o hd hl hc h =
    let v = (Reach-Inv (Reach-stack r)).lpl in
    let taken = Taken-length (LplPayload.input st) w.to_lpl rest t in
    let (z, left) = Heard-AllZero (Lpl.told st) cs cl hl h.csma in
    let (said, out) =
      Lpl.Step-AllZero w.packet st a v (Reach-Contents r).lpl (omega (arith, h.to_lpl, taken)) z in
    rw eu (record {
      to_lpl = omega (arith, h.to_lpl, taken);
      to_csma = length-none w.to_csma (parcels (LplPayload.effects st)) h.to_csma out;
      to_sack = h.to_sack;
      armed = h.armed;
      queued = h.queued;
      free = h.free;
      lpl = AllZero-append ll (statuses (LplPayload.effects st)) (rw hd h.lpl) said;
      csma = AllZero-append cl [] left tt;
      sack = AllZero-append sl [] (rw hc h.sack) tt;
      result = h.result;
    })
Carries-Settled {w = w} r (csma_carries l st rest t eu) ls cs ss ll cl sl a o hd hl hc h =
    let v = (Reach-Inv (Reach-stack r)).csma in
    let taken = Taken-length (CsmaPayload.input st) w.to_csma rest t in
    let (z, left) = Heard-AllZero (Csma.told st) ss sl hc h.sack in
    let (said, out, armed, queued) =
      Csma.Step-AllZero st v h.armed h.queued (omega (arith, h.to_csma, taken)) z in
    rw eu (record {
      to_lpl = h.to_lpl;
      to_csma = omega (arith, h.to_csma, taken);
      to_sack = length-none w.to_sack (parcels (CsmaPayload.effects st)) h.to_sack out;
      armed = armed;
      queued = queued;
      free = h.free;
      lpl = AllZero-append ll [] (rw hd h.lpl) tt;
      csma = AllZero-append cl (statuses (CsmaPayload.effects st)) (rw hl h.csma) said;
      sack = AllZero-append sl [] left tt;
      result = h.result;
    })
Carries-Settled {w = w} r (sack_carries l st rest t eu) ls cs ss ll cl sl a o hd hl hc h =
    let v = (Reach-Inv (Reach-stack r)).sack in
    let taken = Taken-length (SackPayload.input st) w.to_sack rest t in
    let (none_said, free) = Sack.Step-free st v h.free (omega (arith, h.to_sack, taken)) in
    rw eu (record {
      to_lpl = h.to_lpl;
      to_csma = h.to_csma;
      to_sack = omega (arith, h.to_sack, taken);
      armed = h.armed;
      queued = h.queued;
      free = free;
      lpl = AllZero-append ll [] (rw hd h.lpl) tt;
      csma = AllZero-append cl [] (rw hl h.csma) tt;
      sack = AllZero-append sl (statuses (SackPayload.effects st)) (rw hc h.sack) (rw none_said tt);
      result = h.result;
    })
Carries-Settled {w = w} r (radio_carries l st rest t eu) ls cs ss ll cl sl a o hd hl hc h =
    rw eu (record {
      to_lpl = h.to_lpl;
      to_csma = h.to_csma;
      to_sack = h.to_sack;
      armed = h.armed;
      queued = h.queued;
      free = h.free;
      lpl = AllZero-append ll [] (rw hd h.lpl) tt;
      csma = AllZero-append cl [] (rw hl h.csma) tt;
      sack = AllZero-append sl [] (rw hc h.sack) tt;
      result = h.result;
    })

-- The packet has been acknowledged before, and the step takes no other; or the acknowledgement arrives.
acked_cases :
    {w u : Cargo}
    → Inv w.stack
    → (m : Carries w u) (acked : Bool) → acked_after m acked ≡ true
    → ((u.packet ≡ w.packet) × (acked ≡ true) × (device_opens m ≡ false))
      ⊎ ((u.packet ≡ w.packet) × (arrived m ≡ true))
acked_cases {w} v (device_carries d st eu) acked b =
    elim (DeviceReport.Step-opens w.packet st v.device) [
      | inl (opens, idle) ↦ absurd (false≢true (rw opens at b))
      | inr (kept, same) ↦ inl (rw (eu, same) refl, (rw kept at b), kept)
    ]
acked_cases v (lpl_carries l st rest t eu) acked b = inl (rw eu refl, b, refl)
acked_cases v (csma_carries l st rest t eu) acked b = inl (rw eu refl, b, refl)
acked_cases v (radio_carries l st rest t eu) acked b = inl (rw eu refl, b, refl)
acked_cases {w} v (sack_carries s st rest t eu) acked b =
    elim (Bool-cases (Sack.arrives w.packet st)) [
      | inl arrived ↦ inr (rw eu refl, arrived)
      | inr still ↦ inl (rw eu refl, (rw still at b), refl)
    ]

pub Reach-Settled :
    {f : Fresh} {w : Told}
    → Reach f w
    → needs_ack w.cargo.packet ≡ true
    → w.acked ≡ true
    → Settled w.cargo w.lpl_says w.csma_says w.sack_says
Reach-Settled here a b = absurd (false≢true b)
Reach-Settled (next {w} r (tells m ll cl sl hd hl hc el ec es ea) k) a b =
    rw (el, ec, es)
      (elim (acked_cases (Reach-Inv (Reach-stack (Reach-cargo r))) m w.acked (sym ea ∙ b)) [
        | inl (same, b', o) ↦
            Carries-Settled (Reach-cargo r) m w.lpl_says w.csma_says w.sack_says ll cl sl
              (rw same at a) o hd hl hc (Reach-Settled r (rw same at a) b')
        | inr (same, b') ↦
            arrival-Settled (Reach-cargo r) m w.lpl_says w.csma_says w.sack_says ll cl sl
              (Reach-Says r) (rw same at a) (Reach-Truth r).holds b' hd hl hc
      ])

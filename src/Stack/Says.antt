-- ===== src/Stack/Says.antt =====
-- The accounts of the completions on their way up.
use linux_cc2520_driver.Prelude.{
  ℕ, ◌+◌, ◌≡◌, sym, subst, none, List, [], ◌++◌, length, length-append, arith,
}
use linux_cc2520_driver.Parcels.{statuses}
use linux_cc2520_driver.Statuses.{Heard, Heard-length}
use linux_cc2520_driver.Lpl.Payload as LplPayload
use linux_cc2520_driver.Csma.Payload as CsmaPayload
use linux_cc2520_driver.Sack.Payload as SackPayload
use linux_cc2520_driver.Device.Report as DeviceReport
use linux_cc2520_driver.Lpl.Report as Lpl
use linux_cc2520_driver.Csma.Report as Csma
use linux_cc2520_driver.Sack.Report as Sack
use linux_cc2520_driver.Stack.Cargo.{
  Cargo, Carries, device_carries, lpl_carries, csma_carries, sack_carries, radio_carries,
}
use linux_cc2520_driver.Stack.Told.{
  device_hears, lpl_hears, csma_hears, lpl_tells, csma_tells, sack_tells,
}

-- The completions on their way are those made and not run.
pub record Says (c : Cargo) (ls cs ss : List ℕ) : Type 0 where
  pub lpl : length ls + c.stack.device.answers ≡ c.stack.lpl.ledger.completed
  pub csma : length cs + c.stack.lpl.ledger.answers ≡ c.stack.csma.ledger.completed
  pub sack : length ss + c.stack.csma.ledger.answers ≡ c.stack.sack.ledger.completed

pub Carries-Says :
    {w u : Cargo} (m : Carries w u) (ls cs ss ll cl sl : List ℕ)
    → Heard (device_hears m) ls ll
    → Heard (lpl_hears m) cs cl
    → Heard (csma_hears m) ss sl
    → Says w ls cs ss
    → Says u (ll ++ lpl_tells m) (cl ++ csma_tells m) (sl ++ sack_tells m)
Carries-Says {w} (device_carries d st eu) ls cs ss ll cl sl hd hl hc h =
    subst (λ x. Says x (ll ++ []) (cl ++ []) (sl ++ [])) (sym eu)
      (record {
        lpl = omega (
          arith,
          DeviceReport.Step-told st,
          h.lpl,
          length-append ll ([]),
          Heard-length (DeviceReport.told st) ls ll hd,
        );
        csma = omega (
          arith,
          DeviceReport.Step-told st,
          h.csma,
          length-append cl ([]),
          Heard-length (none) cs cl hl,
        );
        sack = omega (
          arith,
          DeviceReport.Step-told st,
          h.sack,
          length-append sl ([]),
          Heard-length (none) ss sl hc,
        );
      })
Carries-Says {w} (lpl_carries l st rest t eu) ls cs ss ll cl sl hd hl hc h =
    subst (λ x. Says x (ll ++ statuses (LplPayload.effects st)) (cl ++ []) (sl ++ [])) (sym eu)
      (record {
        lpl = omega (
          arith,
          Lpl.Step-told st,
          h.lpl,
          length-append ll (statuses (LplPayload.effects st)),
          Heard-length (none) ls ll hd,
        );
        csma = omega (
          arith,
          Lpl.Step-told st,
          h.csma,
          length-append cl ([]),
          Heard-length (Lpl.told st) cs cl hl,
        );
        sack =
            omega (
              arith,
              Lpl.Step-told st,
              h.sack,
              length-append sl ([]),
              Heard-length (none) ss sl hc,
            );
      })
Carries-Says {w} (csma_carries l st rest t eu) ls cs ss ll cl sl hd hl hc h =
    subst (λ x. Says x (ll ++ []) (cl ++ statuses (CsmaPayload.effects st)) (sl ++ [])) (sym eu)
      (record {
        lpl =
            omega (
              arith,
              Csma.Step-told st,
              h.lpl,
              length-append ll ([]),
              Heard-length (none) ls ll hd,
            );
        csma = omega (
          arith,
          Csma.Step-told st,
          h.csma,
          length-append cl (statuses (CsmaPayload.effects st)),
          Heard-length (none) cs cl hl,
        );
        sack = omega (
          arith,
          Csma.Step-told st,
          h.sack,
          length-append sl ([]),
          Heard-length (Csma.told st) ss sl hc,
        );
      })
Carries-Says {w} (sack_carries l st rest t eu) ls cs ss ll cl sl hd hl hc h =
    subst (λ x. Says x (ll ++ []) (cl ++ []) (sl ++ statuses (SackPayload.effects st))) (sym eu)
      (record {
        lpl =
            omega (
              arith,
              Sack.Step-told st,
              h.lpl,
              length-append ll ([]),
              Heard-length (none) ls ll hd,
            );
        csma =
            omega (
              arith,
              Sack.Step-told st,
              h.csma,
              length-append cl ([]),
              Heard-length (none) cs cl hl,
            );
        sack = omega (
          arith,
          Sack.Step-told st,
          h.sack,
          length-append sl (statuses (SackPayload.effects st)),
          Heard-length (none) ss sl hc,
        );
      })
Carries-Says {w} (radio_carries l st rest t eu) ls cs ss ll cl sl hd hl hc h =
    subst (λ x. Says x (ll ++ []) (cl ++ []) (sl ++ [])) (sym eu)
      (record {
        lpl = omega (arith, h.lpl, length-append ll ([]), Heard-length (none) ls ll hd);
        csma = omega (arith, h.csma, length-append cl ([]), Heard-length (none) cs cl hl);
        sack = omega (arith, h.sack, length-append sl ([]), Heard-length (none) ss sl hc);
      })

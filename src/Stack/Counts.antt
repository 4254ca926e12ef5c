-- ===== src/Stack/Counts.antt =====
-- The cargo machine is the stack with bytes, and its waiting calls are those that the accounts tell of.
use linux_cc2520_driver.Prelude.{◌+◌, ◌≡◌, refl, sym, subst, length, length-append, arith}
use linux_cc2520_driver.Ledger.{sent}
use linux_cc2520_driver.Parcels.{parcels, Taken-length}
use linux_cc2520_driver.Lpl.Payload as Lpl
use linux_cc2520_driver.Csma.Payload as Csma
use linux_cc2520_driver.Sack.Payload as Sack
use linux_cc2520_driver.Radio.Payload as Radio
use linux_cc2520_driver.Device.Payload as Device
use linux_cc2520_driver.Stack
use linux_cc2520_driver.Stack.{
  Stack, Coupled, Fresh, handed, Moves, device_moves, lpl_moves, csma_moves, sack_moves,
  radio_moves,
}
use linux_cc2520_driver.Stack.Conservation.{Inv, Reach-Inv}
use linux_cc2520_driver.Stack.Cargo.{
  Cargo, unladen, Carries, device_carries, lpl_carries, csma_carries, sack_carries, radio_carries,
  Reach, here, next,
}

-- Without the bytes, a step of the cargo is a step of the stack.
Carries-Moves : {w u : Cargo} → Carries w u → Moves w.stack u.stack
Carries-Moves (device_carries d st eu) = device_moves d st (rw eu refl)
Carries-Moves (lpl_carries l st rest t eu) = lpl_moves l st (rw eu refl)
Carries-Moves (csma_carries l st rest t eu) = csma_moves l st (rw eu refl)
Carries-Moves (sack_carries l st rest t eu) = sack_moves l st (rw eu refl)
Carries-Moves (radio_carries l st rest t eu) = radio_moves l st (rw eu refl)

pub Reach-stack : {f : Fresh} {w : Cargo} → Reach f w → Stack.Reach f w.stack
Reach-stack here = Stack.here
Reach-stack (next r m c) = Stack.next (Reach-stack r) (Carries-Moves m) c

-- The calls that wait are those made and not run.
pub record Counts (w : Cargo) : Type 0 where
  pub lpl : length w.to_lpl + w.stack.lpl.ledger.accepted ≡ handed w.stack
  pub csma : length w.to_csma + w.stack.csma.ledger.accepted ≡ sent w.stack.lpl.ledger
  pub sack : length w.to_sack + w.stack.sack.ledger.accepted ≡ sent w.stack.csma.ledger
  pub radio : length w.to_radio + w.stack.radio.accepted ≡ sent w.stack.sack.ledger

unladen-Counts : (f : Fresh) → Counts (unladen f)
unladen-Counts f = ground arith

pub Carries-Counts : {w u : Cargo} → Inv w.stack → Carries w u → Counts w → Counts u
Carries-Counts {w} v (device_carries d st eu) n = subst Counts (sym eu) (record {
  lpl = omega (
    arith,
    n.lpl,
    Device.Step-written w.packet st v.device,
    length-append w.to_lpl (parcels (Device.effects st)),
  );
  csma = n.csma;
  sack = n.sack;
  radio = n.radio;
})
Carries-Counts {w} v (lpl_carries l st rest t eu) n =
    let (out, into) = Lpl.Step-counts st in
    subst Counts (sym eu) (record {
      lpl = omega (arith, n.lpl, into, Taken-length (Lpl.input st) w.to_lpl rest t);
      csma = omega (arith, n.csma, out, length-append w.to_csma (parcels (Lpl.effects st)));
      sack = n.sack;
      radio = n.radio;
    })
Carries-Counts {w} v (csma_carries l st rest t eu) n =
    let (out, into) = Csma.Step-counts st in
    subst Counts (sym eu) (record {
      lpl = n.lpl;
      csma = omega (arith, n.csma, into, Taken-length (Csma.input st) w.to_csma rest t);
      sack = omega (arith, n.sack, out, length-append w.to_sack (parcels (Csma.effects st)));
      radio = n.radio;
    })
Carries-Counts {w} v (sack_carries l st rest t eu) n =
    let (out, into) = Sack.Step-counts st in
    subst Counts (sym eu) (record {
      lpl = n.lpl;
      csma = n.csma;
      sack = omega (arith, n.sack, into, Taken-length (Sack.input st) w.to_sack rest t);
      radio = omega (arith, n.radio, out, length-append w.to_radio (parcels (Sack.effects st)));
    })
Carries-Counts {w} v (radio_carries l st rest t eu) n = subst Counts (sym eu) (record {
  lpl = n.lpl;
  csma = n.csma;
  sack = n.sack;
  radio =
      omega (arith, n.radio, Radio.Step-counts st, Taken-length (Radio.input st) w.to_radio rest t);
})

pub Reach-Counts : {f : Fresh} {w : Cargo} → Reach f w → Counts w
Reach-Counts {f} here = unladen-Counts f
Reach-Counts (next r m c) = Carries-Counts (Reach-Inv (Reach-stack r)) m (Reach-Counts r)

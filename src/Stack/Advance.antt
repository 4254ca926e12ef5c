-- ===== src/Stack/Advance.antt =====
-- The steps of the layers that run what waits for them, as steps of the stack.
use linux_cc2520_driver.Prelude.{◌+◌, ◌≤◌, ◌≡◌, refl, Bool, true, List, arith}
use linux_cc2520_driver.Ledger.{World}
use linux_cc2520_driver.Parcels.{Parcel, Taken, Taken-length}
use linux_cc2520_driver.Lpl.Payload as LplPayload
use linux_cc2520_driver.Csma.Payload as CsmaPayload
use linux_cc2520_driver.Sack.Payload as SackPayload
use linux_cc2520_driver.Radio.Payload as RadioPayload
use linux_cc2520_driver.Lpl.Advance as Lpl
use linux_cc2520_driver.Csma.Advance as Csma
use linux_cc2520_driver.Sack.Advance as Sack
use linux_cc2520_driver.Radio.Advance as Radio
use linux_cc2520_driver.Device.Advance as Device
use linux_cc2520_driver.Stack.{Coupled}
use linux_cc2520_driver.Stack.Cargo.{
  Cargo, Carries, device_carries, lpl_carries, csma_carries, sack_carries, radio_carries,
}
use linux_cc2520_driver.Stack.Counts.{Counts}

-- The step brings the packet under way nearer to its completion: a call or a completion on its way,
-- the start and the end of the listening period, the backoff timer with a clear channel, the work of csma.c, the
-- timer of an awaited acknowledgement, the answer of the SPI bus to the transmit engine, or the end of
-- a frame that is written. A completion finds the listening period over.
abbrev pub is_progress : {w u : Cargo} → Carries w u → Bool
is_progress (device_carries d st eu) = Device.is_progress st
is_progress (lpl_carries l st rest t eu) = Lpl.is_progress st
is_progress (csma_carries c st rest t eu) = Csma.is_progress st
is_progress (sack_carries s st rest t eu) = Sack.is_progress st
is_progress (radio_carries r st rest t eu) = Radio.is_progress st

abbrev pub Advances : Cargo → Type 0
Advances w = (u : Cargo) × (m : Carries w u) × (is_progress m ≡ true) × Coupled u.stack

-- One move of a layer that runs a call or a completion that waits keeps the coupling.
pub lpl-Advances :
    {w : Cargo} (l : World linux_cc2520_driver.Lpl.Lpl)
    (st : linux_cc2520_driver.Lpl.World.Step w.stack.lpl l) (rest : List Parcel)
    → Coupled w.stack
    → Counts w
    → Taken (LplPayload.input st) w.to_lpl rest
    → w.stack.lpl.ledger.answers + Lpl.answers st ≤ w.stack.csma.ledger.completed
    → Lpl.is_progress st ≡ true
    → Advances w
lpl-Advances {w} l st rest c n t a p =
    let (out, into) = LplPayload.Step-counts st in
    let (up, done) = Lpl.Step-answers st in
    (
      _,
      lpl_carries l st rest t refl,
      p,
      record {
        interface_bottom_tx =
            omega (arith, n.lpl, into, Taken-length (LplPayload.input st) w.to_lpl rest t);
        unique_top_tx_done = omega (arith, c.unique_top_tx_done, done);
        lpl_bottom_tx = omega (arith, c.lpl_bottom_tx, out);
        csma_top_tx_done = omega (arith, up, a);
        csma_bottom_tx = c.csma_bottom_tx;
        sack_top_tx_done = c.sack_top_tx_done;
        sack_bottom_tx = c.sack_bottom_tx;
        radio_top_tx_done = c.radio_top_tx_done;
      },
    )

pub csma-Advances :
    {w : Cargo} (l : World linux_cc2520_driver.Csma.Csma)
    (st : linux_cc2520_driver.Csma.World.Step w.stack.csma l) (rest : List Parcel)
    → Coupled w.stack
    → Counts w
    → Taken (CsmaPayload.input st) w.to_csma rest
    → w.stack.csma.ledger.answers + Csma.answers st ≤ w.stack.sack.ledger.completed
    → Csma.is_progress st ≡ true
    → Advances w
csma-Advances {w} l st rest c n t a p =
    let (out, into) = CsmaPayload.Step-counts st in
    let (up, done) = Csma.Step-answers st in
    (
      _,
      csma_carries l st rest t refl,
      p,
      record {
        interface_bottom_tx = c.interface_bottom_tx;
        unique_top_tx_done = c.unique_top_tx_done;
        lpl_bottom_tx =
            omega (arith, n.csma, into, Taken-length (CsmaPayload.input st) w.to_csma rest t);
        csma_top_tx_done = omega (arith, c.csma_top_tx_done, done);
        csma_bottom_tx = omega (arith, c.csma_bottom_tx, out);
        sack_top_tx_done = omega (arith, up, a);
        sack_bottom_tx = c.sack_bottom_tx;
        radio_top_tx_done = c.radio_top_tx_done;
      },
    )

pub sack-Advances :
    {w : Cargo} (l : World linux_cc2520_driver.Sack.Sack)
    (st : linux_cc2520_driver.Sack.World.Step w.stack.sack l) (rest : List Parcel)
    → Coupled w.stack
    → Counts w
    → Taken (SackPayload.input st) w.to_sack rest
    → w.stack.sack.ledger.answers + Sack.answers st ≤ w.stack.radio.completed
    → Sack.is_progress st ≡ true
    → Advances w
sack-Advances {w} l st rest c n t a p =
    let (out, into) = SackPayload.Step-counts st in
    let (up, done) = Sack.Step-answers st in
    (
      _,
      sack_carries l st rest t refl,
      p,
      record {
        interface_bottom_tx = c.interface_bottom_tx;
        unique_top_tx_done = c.unique_top_tx_done;
        lpl_bottom_tx = c.lpl_bottom_tx;
        csma_top_tx_done = c.csma_top_tx_done;
        csma_bottom_tx =
            omega (arith, n.sack, into, Taken-length (SackPayload.input st) w.to_sack rest t);
        sack_top_tx_done = omega (arith, c.sack_top_tx_done, done);
        sack_bottom_tx = omega (arith, c.sack_bottom_tx, out);
        radio_top_tx_done = omega (arith, up, a);
      },
    )

pub radio-Advances :
    {w : Cargo} (l : linux_cc2520_driver.Radio.TxWorld.TxWorld)
    (st : linux_cc2520_driver.Radio.TxWorld.Step w.stack.radio l) (rest : List Parcel)
    → Coupled w.stack
    → Counts w
    → Radio.IsSized w.stack.radio.radio
    → Taken (RadioPayload.input st) w.to_radio rest
    → Radio.is_progress st ≡ true
    → Advances w
radio-Advances {w} l st rest c n v t p =
    let (_, done) = Radio.Step-IsSized st v in
    (
      _,
      radio_carries l st rest t refl,
      p,
      record {
        interface_bottom_tx = c.interface_bottom_tx;
        unique_top_tx_done = c.unique_top_tx_done;
        lpl_bottom_tx = c.lpl_bottom_tx;
        csma_top_tx_done = c.csma_top_tx_done;
        csma_bottom_tx = c.csma_bottom_tx;
        sack_top_tx_done = c.sack_top_tx_done;
        sack_bottom_tx = omega (
          arith,
          n.radio,
          RadioPayload.Step-counts st,
          Taken-length (RadioPayload.input st) w.to_radio rest t,
        );
        radio_top_tx_done = omega (arith, c.radio_top_tx_done, done);
      },
    )

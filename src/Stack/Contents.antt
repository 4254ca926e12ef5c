-- ===== src/Stack/Contents.antt =====
-- Every call that waits and every layer that is busy holds the packet of the write under way.
use linux_cc2520_driver.Prelude.{ℕ, ◌≡◌, inl, inr, sym, subst, List, [], arith}
use linux_cc2520_driver.Parcels.{parcels, AllHold, AllHold-append, AllHold-empty, Taken-AllHold}
use linux_cc2520_driver.Lpl.Payload as Lpl
use linux_cc2520_driver.Csma.Payload as Csma
use linux_cc2520_driver.Sack.Payload as Sack
use linux_cc2520_driver.Radio.Payload as Radio
use linux_cc2520_driver.Device.Payload as Device
use linux_cc2520_driver.Radio.State
use linux_cc2520_driver.Stack
use linux_cc2520_driver.Stack.{
  Stack, Coupled, Fresh, handed, Moves, device_moves, lpl_moves, csma_moves, sack_moves,
  radio_moves,
}
use linux_cc2520_driver.Stack.Conservation.{Reach-Inv, stack_conservation}
use linux_cc2520_driver.Stack.Cargo.{
  Cargo, unladen, Carries, device_carries, lpl_carries, csma_carries, sack_carries, radio_carries,
  Reach, here, next,
}
use linux_cc2520_driver.Stack.Counts.{Counts, Reach-stack, Reach-Counts}

pub record Contents (packet : List ℕ) (w : Cargo) : Type 0 where
  pub to_lpl : AllHold packet w.to_lpl
  pub lpl : Lpl.Holds packet w.stack.lpl.layer
  pub to_csma : AllHold packet w.to_csma
  pub csma : Csma.Holds packet w.stack.csma.layer
  pub to_sack : AllHold packet w.to_sack
  pub to_radio : AllHold (Sack.outgoing packet w.stack.sack.layer) w.to_radio
  pub radio : Radio.Holds (Sack.outgoing packet w.stack.sack.layer) w.stack.radio.radio

abbrev pub Content : Cargo → Type 0
Content w = Contents w.packet w

unladen-Contents : (f : Fresh) → Contents [] (unladen f)
unfolding linux_cc2520_driver.Lpl.init linux_cc2520_driver.Csma.init linux_cc2520_driver.Sack.init
    State.init
unladen-Contents f = ground arith

-- An empty stack agrees with any packet, but for an acknowledgement that is being sent.
Contents-any :
    (packet other : List ℕ) (w : Cargo) {f : Fresh}
    → Stack.Reach f w.stack
    → Counts w
    → w.stack.device.sending ≡ 0
    → Contents packet w
    → Contents other w
Contents-any packet other w r n e h =
    let v = Reach-Inv r in
    let c = stack_conservation r in
    let (to_radio, radio) =
      Radio.Holds-other (Sack.outgoing packet s) (Sack.outgoing other s) w.to_radio
        w.stack.radio.radio
        (elim (Sack.outgoing_other packet other s (omega (arith, v.lpl.sends, v.csma.busy, c, e))) [
          | inl same ↦ inl same
          | inr none ↦ inr (
            omega (arith, n.radio, v.sack.sends, none, c.7),
            omega (arith, v.sack.sends, none, c.7),
          )
        ])
        h.to_radio h.radio in
    record {
      to_lpl = AllHold-empty other w.to_lpl (omega (arith, n.lpl, e, c.4));
      lpl = Lpl.Holds-idle other w.stack.lpl.layer (omega (arith, e, c.4));
      to_csma = AllHold-empty other w.to_csma (omega (arith, n.csma, e, c.4, c.5, v.lpl.sends));
      csma = Csma.Holds-idle other w.stack.csma.layer (omega (arith, e, c.4, c.5, v.lpl.sends));
      to_sack =
          AllHold-empty other w.to_sack
            (omega (arith, n.sack, e, c.4, c.5, c.6, v.lpl.sends, v.csma.busy));
      to_radio = to_radio;
      radio = radio;
    }
  where
    s : linux_cc2520_driver.Sack.Sack
    s = w.stack.sack.layer

Carries-Contents :
    {f : Fresh} {w u : Cargo}
    → Stack.Reach f w.stack
    → Stack.Reach f u.stack
    → Carries w u
    → Counts w
    → Contents w.packet w
    → Contents u.packet u
Carries-Contents {w = w} r r' (device_carries d st eu) n h =
    let (out, when, _) = Device.Step-written w.packet st (Reach-Inv r).device in
    let packet = Device.written st w.packet in
    let k : Contents packet w = elim when [
      | inl same ↦ rw same h
      | inr idle ↦ Contents-any w.packet packet w r n idle h
    ] in
    subst Content (sym eu) (record {
      to_lpl = AllHold-append packet w.to_lpl (parcels (Device.effects st)) k.to_lpl out;
      lpl = k.lpl;
      to_csma = k.to_csma;
      csma = k.csma;
      to_sack = k.to_sack;
      to_radio = k.to_radio;
      radio = k.radio;
    })
Carries-Contents {w = w} r r' (lpl_carries l st rest t eu) n h =
    let (i, left) = Taken-AllHold w.packet (Lpl.input st) w.to_lpl rest t h.to_lpl in
    let (mine, out) = Lpl.Step-Holds w.packet st (Reach-Inv r).lpl h.lpl i in
    subst Content (sym eu) (record {
      to_lpl = left;
      lpl = mine;
      to_csma = AllHold-append w.packet w.to_csma (parcels (Lpl.effects st)) h.to_csma out;
      csma = h.csma;
      to_sack = h.to_sack;
      to_radio = h.to_radio;
      radio = h.radio;
    })
Carries-Contents {w = w} r r' (csma_carries c st rest t eu) n h =
    let (i, left) = Taken-AllHold w.packet (Csma.input st) w.to_csma rest t h.to_csma in
    let (mine, out) = Csma.Step-Holds w.packet st (Reach-Inv r).csma h.csma i in
    subst Content (sym eu) (record {
      to_lpl = h.to_lpl;
      lpl = h.lpl;
      to_csma = left;
      csma = mine;
      to_sack = AllHold-append w.packet w.to_sack (parcels (Csma.effects st)) h.to_sack out;
      to_radio = h.to_radio;
      radio = h.radio;
    })
Carries-Contents {w = w} r r' (sack_carries s st rest t eu) n h =
    let (i, left) = Taken-AllHold w.packet (Sack.input st) w.to_sack rest t h.to_sack in
    let c = stack_conservation (rw eu at r') in
    let (sends, _) = Sack.Step-counts st in
    let new = Sack.outgoing w.packet s.layer in
    let (to_radio, radio) =
      Radio.Holds-other (Sack.outgoing w.packet w.stack.sack.layer) new w.to_radio
        w.stack.radio.radio
        (elim (Sack.Step-steady w.packet st (Reach-Inv r).sack) [
          | inl same ↦ inl same
          | inr fresh ↦
              inr (
                omega (arith, n.radio, sends, fresh, c.7),
                omega (arith, n.radio, sends, fresh, c.7),
              )
        ])
        h.to_radio h.radio in
    subst Content (sym eu) (record {
      to_lpl = h.to_lpl;
      lpl = h.lpl;
      to_csma = h.to_csma;
      csma = h.csma;
      to_sack = left;
      to_radio =
          AllHold-append new w.to_radio (parcels (Sack.effects st)) to_radio
            (Sack.Step-outgoing w.packet st i);
      radio = radio;
    })
Carries-Contents {w = w} r r' (radio_carries x st rest t eu) n h =
    let ack = Sack.outgoing w.packet w.stack.sack.layer in
    let (i, left) = Taken-AllHold ack (Radio.input st) w.to_radio rest t h.to_radio in
    subst Content (sym eu) (record {
      to_lpl = h.to_lpl;
      lpl = h.lpl;
      to_csma = h.to_csma;
      csma = h.csma;
      to_sack = h.to_sack;
      to_radio = left;
      radio = Radio.Step-Holds ack st (Reach-Inv r).radio h.radio i;
    })

pub Reach-Contents : {f : Fresh} {w : Cargo} → Reach f w → Content w
Reach-Contents {f} here = unladen-Contents f
Reach-Contents (next r m c) =
    Carries-Contents (Reach-stack r) (Reach-stack (next r m c)) m (Reach-Counts r)
      (Reach-Contents r)

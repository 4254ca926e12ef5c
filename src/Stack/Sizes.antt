-- ===== src/Stack/Sizes.antt =====
-- The sizes of the buffers of the stack, and of the packets on their way down.
use linux_cc2520_driver.Prelude.{◌≡◌, sym, subst, length, arith}
use linux_cc2520_driver.Config.{pkt_buff_size}
use linux_cc2520_driver.Parcels.{parcels, AllFit, AllFit-append, Taken-AllFit}
use linux_cc2520_driver.Lpl.Payload as LplPayload
use linux_cc2520_driver.Csma.Payload as CsmaPayload
use linux_cc2520_driver.Sack.Payload as SackPayload
use linux_cc2520_driver.Radio.Payload as RadioPayload
use linux_cc2520_driver.Device.Payload as DevicePayload
use linux_cc2520_driver.Lpl.Advance as Lpl
use linux_cc2520_driver.Csma.Advance as Csma
use linux_cc2520_driver.Sack.Advance as Sack
use linux_cc2520_driver.Radio.Advance as Radio
use linux_cc2520_driver.Device.Advance as Device
use linux_cc2520_driver.Radio.State
use linux_cc2520_driver.Stack.{Fresh}
use linux_cc2520_driver.Stack.Conservation.{Inv, Reach-Inv}
use linux_cc2520_driver.Stack.Cargo.{
  Cargo, unladen, Carries, device_carries, lpl_carries, csma_carries, sack_carries, radio_carries,
  Reach, here, next,
}
use linux_cc2520_driver.Stack.Counts.{Reach-stack}

-- Every buffer has its allocated size, and every packet fits the buffers that it will be copied to.
pub record IsSized (w : Cargo) : Type 0 where
  pub device : Device.IsSized w.stack.device.device
  pub to_lpl : AllFit w.to_lpl
  pub lpl : Lpl.IsSized w.stack.lpl.layer
  pub to_csma : AllFit w.to_csma
  pub csma : Csma.IsSized w.stack.csma.layer
  pub to_sack : AllFit w.to_sack
  pub sack : Sack.IsSized w.stack.sack.layer
  pub to_radio : AllFit w.to_radio
  pub radio : Radio.IsSized w.stack.radio.radio

-- The sizes that `kmalloc` is asked for.
pub record IsAllocated (f : Fresh) : Type 0 where
  pub device_tx : length f.device_tx ≡ pkt_buff_size
  pub lpl_tx : length f.lpl_tx ≡ pkt_buff_size
  pub csma_tx : length f.csma_tx ≡ pkt_buff_size
  pub sack_ack : length f.sack_ack ≡ 6
  pub sack_tx : length f.sack_tx ≡ pkt_buff_size
  pub radio_tx : length f.radio_tx ≡ pkt_buff_size

unladen-IsSized : {f : Fresh} → IsAllocated f → IsSized (unladen f)
unfolding linux_cc2520_driver.Lpl.init linux_cc2520_driver.Csma.init linux_cc2520_driver.Sack.init
    State.init linux_cc2520_driver.Device.init
unladen-IsSized a = record {
  device = a.device_tx;
  to_lpl = tt;
  lpl = record { buffer = a.lpl_tx; packet = omega arith };
  to_csma = tt;
  csma = record { buffer = a.csma_tx; packet = omega arith };
  to_sack = tt;
  sack = record { buffer = a.sack_tx; ack = a.sack_ack };
  to_radio = tt;
  radio = a.radio_tx;
}

Carries-IsSized : {w u : Cargo} → Inv w.stack → Carries w u → IsSized w → IsSized u
Carries-IsSized {w} i (device_carries d st eu) v =
    let (mine, out) = Device.Step-IsSized st v.device in
    subst IsSized (sym eu) (record {
      device = mine;
      to_lpl = AllFit-append w.to_lpl (parcels (DevicePayload.effects st)) v.to_lpl out;
      lpl = v.lpl;
      to_csma = v.to_csma;
      csma = v.csma;
      to_sack = v.to_sack;
      sack = v.sack;
      to_radio = v.to_radio;
      radio = v.radio;
    })
Carries-IsSized {w} i (lpl_carries l st rest t eu) v =
    let (mine, out) = Lpl.Step-IsSized st i.lpl v.lpl in
    subst IsSized (sym eu) (record {
      device = v.device;
      to_lpl = Taken-AllFit (LplPayload.input st) w.to_lpl rest t v.to_lpl;
      lpl = mine;
      to_csma = AllFit-append w.to_csma (parcels (LplPayload.effects st)) v.to_csma out;
      csma = v.csma;
      to_sack = v.to_sack;
      sack = v.sack;
      to_radio = v.to_radio;
      radio = v.radio;
    })
Carries-IsSized {w} i (csma_carries c st rest t eu) v =
    let (mine, out) = Csma.Step-IsSized st i.csma v.csma in
    subst IsSized (sym eu) (record {
      device = v.device;
      to_lpl = v.to_lpl;
      lpl = v.lpl;
      to_csma = Taken-AllFit (CsmaPayload.input st) w.to_csma rest t v.to_csma;
      csma = mine;
      to_sack = AllFit-append w.to_sack (parcels (CsmaPayload.effects st)) v.to_sack out;
      sack = v.sack;
      to_radio = v.to_radio;
      radio = v.radio;
    })
Carries-IsSized {w} i (sack_carries s st rest t eu) v =
    let (mine, out) = Sack.Step-IsSized st i.sack v.sack in
    subst IsSized (sym eu) (record {
      device = v.device;
      to_lpl = v.to_lpl;
      lpl = v.lpl;
      to_csma = v.to_csma;
      csma = v.csma;
      to_sack = Taken-AllFit (SackPayload.input st) w.to_sack rest t v.to_sack;
      sack = mine;
      to_radio = AllFit-append w.to_radio (parcels (SackPayload.effects st)) v.to_radio out;
      radio = v.radio;
    })
Carries-IsSized {w} i (radio_carries r st rest t eu) v =
    let (mine, _) = Radio.Step-IsSized st v.radio in
    subst IsSized (sym eu) (record {
      device = v.device;
      to_lpl = v.to_lpl;
      lpl = v.lpl;
      to_csma = v.to_csma;
      csma = v.csma;
      to_sack = v.to_sack;
      sack = v.sack;
      to_radio = Taken-AllFit (RadioPayload.input st) w.to_radio rest t v.to_radio;
      radio = mine;
    })

pub Reach-IsSized : {f : Fresh} {w : Cargo} → IsAllocated f → Reach f w → IsSized w
Reach-IsSized a here = unladen-IsSized a
Reach-IsSized a (next r m c) = Carries-IsSized (Reach-Inv (Reach-stack r)) m (Reach-IsSized a r)

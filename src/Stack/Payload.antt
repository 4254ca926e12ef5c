-- ===== src/Stack/Payload.antt =====
-- The bytes that the radio transmits are the bytes that a program has written.
use linux_cc2520_driver.Prelude.{◌≡◌, ◌≤◌, ◌∙◌, Bool, length-take, sym, length, take, arith}
use linux_cc2520_driver.Sack.Payload as Sack
use linux_cc2520_driver.Radio.Payload as Radio
use linux_cc2520_driver.Radio.State
use linux_cc2520_driver.Radio.TxCompletion.{load}
use linux_cc2520_driver.Radio.Tx.{tx_message}
use linux_cc2520_driver.Radio.Frames.{fifo, tx_message_bytes}
use linux_cc2520_driver.Stack.{Fresh}
use linux_cc2520_driver.Stack.Conservation.{Inv, Reach-Inv}
use linux_cc2520_driver.Stack.Cargo.{
  Cargo, Carries, device_carries, lpl_carries, csma_carries, sack_carries, radio_carries, Reach,
  here, next,
}
use linux_cc2520_driver.Stack.Counts.{Reach-stack}
use linux_cc2520_driver.Stack.Contents.{Reach-Contents}

Carries-Fits :
    {w u : Cargo}
    → Inv w.stack
    → Carries w u
    → Radio.Fits w.stack.radio.radio
    → Radio.Fits u.stack.radio.radio
Carries-Fits v (device_carries d st eu) h = rw eu h
Carries-Fits v (lpl_carries l st rest t eu) h = rw eu h
Carries-Fits v (csma_carries c st rest t eu) h = rw eu h
Carries-Fits v (sack_carries s st rest t eu) h = rw eu h
Carries-Fits v (radio_carries r st rest t eu) h = rw eu (Radio.Step-Fits st v.radio h)

Reach-Fits : {f : Fresh} {w : Cargo} → Reach f w → Radio.Fits w.stack.radio.radio
unfolding State.init
Reach-Fits {f} here = ground arith
Reach-Fits (next r m c) = Carries-Fits (Reach-Inv (Reach-stack r)) m (Reach-Fits r)

-- In every state that the stack reaches from initialisation on with LPL and CSMA left enabled, whatever
-- the interleaving of writes, timers, resends, received packets, acknowledgements and radio events:
-- while the radio transmits, the bytes that its message puts into the transmit FIFO are exactly those
-- of the packet of the write under way or, while sack.c sends an acknowledgement, of that
-- acknowledgement. The packet has at least its length byte and frame control field.
pub stack_payload :
    {f : Fresh} {w : Cargo} (flush : Bool)
    → Reach f w
    → load w.stack.radio.radio.radio_state ≡ 1
    → 3 ≤ length (Sack.outgoing w.packet w.stack.sack.layer)
    → fifo (tx_message w.stack.radio.radio flush) ≡ Sack.outgoing w.packet w.stack.sack.layer
stack_payload {w = w} flush reach busy long =
    let h = Reach-Contents reach in
    let r = w.stack.radio.radio in
    let out = Sack.outgoing w.packet w.stack.sack.layer in
    let fits : r.tx_buf_r_len ≤ length r.tx_buf_r = ground (arith, Reach-Fits reach, busy) in
    let same : take r.tx_buf_r_len r.tx_buf_r ≡ out = Radio.Holds-busy out r busy h.radio in
    let size : r.tx_buf_r_len ≡ length out =
      rw (sym same) (omega (arith, length-take r.tx_buf_r_len r.tx_buf_r)) in
    tx_message_bytes r flush (omega arith) fits ∙ same

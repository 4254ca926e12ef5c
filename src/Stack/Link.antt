-- ===== src/Stack/Link.antt =====
-- A packet written on one machine and read on another.
use linux_cc2520_driver.Prelude.{
  ℕ, ◌+◌, ◌≤◌, ◌<◌, ◌≡◌, refl, Bool, true, false, not, ◌&&◌, List, ◌∷◌, ◌++◌, ok, length,
  length-append, drop, ap, sym, ◌∙◌, if◌then◌else◌, arith,
}
use linux_cc2520_driver.Config.{pkt_buff_size}
use linux_cc2520_driver.Packet.{create_ack}
use linux_cc2520_driver.Sack.{Sack, tx}
use linux_cc2520_driver.Sack.Payload.{outgoing}
use linux_cc2520_driver.Sack.Receive.{verdict, copied}
use linux_cc2520_driver.Radio.Tx.{tx_message}
use linux_cc2520_driver.Radio.Frames.{fifo}
use linux_cc2520_driver.Radio.Reception.{packet_buf}
use linux_cc2520_driver.Radio.TxCompletion.{load}
use linux_cc2520_driver.Unique.History.{History, is_duplicate}
use linux_cc2520_driver.Unique.Filter.{Represents}
use linux_cc2520_driver.Device.{value}
use linux_cc2520_driver.Stack.{Fresh}
use linux_cc2520_driver.Stack.Cargo.{Cargo, Reach}
use linux_cc2520_driver.Stack.Payload.{stack_payload}
use linux_cc2520_driver.Stack.Upward.{Receiver, receive}
use linux_cc2520_driver.Stack.Delivery.{others, goes_up, found, delivery}

-- A receiver that is ready for a frame, with the packets that it has received before.
pub record IsReady (r : Receiver) (before : History) : Type 0 where
  pub unlocked : r.radio.rx_buf_sl ≡ false
  pub radio_size : length r.radio.rx_buf_r ≡ pkt_buff_size
  pub sack_size : length r.sack.cur_rx_buf ≡ pkt_buff_size
  pub device_size : length r.device.rx_buf_c ≡ pkt_buff_size
  pub released : r.sack.sack_sl ≡ false
  pub nodes : Represents r.nodes before

-- What the chip of a receiver returns for a frame of which the sender's FIFO held the length and the
-- body: after the status byte the body and the two bytes that the chips put in place of the checksum.
abbrev pub Heard : Receiver → List ℕ → List ℕ → ℕ → List ℕ → Type 0
Heard r sent checksum status rest = r.radio.rx_in_buf ≡ status ∷ ((drop 1 sent ++ checksum) ++ rest)

outgoing-sending : (packet : List ℕ) (s : Sack) → s.sack_state ≡ tx → outgoing packet s ≡ packet
outgoing-sending packet s e = rw e refl

-- While a machine transmits a packet that was written to its device, and not an acknowledgement, with
-- the length byte that the standard asks for (the body and two bytes of checksum): a machine that is
-- ready and hears the frame hands its reader exactly the bytes that were written, followed by the two
-- bytes of checksum, if the packet is one that goes up and no duplicate of the last from its source;
-- and it answers as the packet's header and its own state call for.
pub written-read :
    {f : Fresh} {w : Cargo} (flush : Bool) (r : Receiver) (before : History)
    (body checksum rest : List ℕ) (status : ℕ)
    → Reach f w
    → load w.stack.radio.radio.radio_state ≡ 1
    → w.stack.sack.layer.sack_state ≡ tx
    → w.packet ≡ length (body ++ checksum) ∷ body
    → 2 ≤ length body
    → length checksum ≡ 2
    → length (body ++ checksum) < pkt_buff_size
    → IsReady r before
    → Heard r (fifo (tx_message w.stack.radio.radio flush)) checksum status rest
    → let frame = body ++ checksum in
      let buf = packet_buf frame r.radio.rx_buf_r in
      let up = copied r.sack buf (length frame + 1) in
      let what = verdict r.sack buf in
      (u : Receiver) × (receive true r (length frame)
        ≡ ok (u, others what (create_ack up r.sack.ack_buf)))
      × (found u.device ≡ (
          if goes_up what && not (is_duplicate before up)
          then (value (length frame + 1), w.packet ++ checksum)
          else found r.device))
written-read {w = w} flush r before body checksum rest status reach busy sending form room two small
      ready heard =
    let frame = body ++ checksum in
    let out : outgoing w.packet w.stack.sack.layer ≡ length frame ∷ body =
      outgoing-sending w.packet w.stack.sack.layer sending ∙ form in
    let long : 3 ≤ length (outgoing w.packet w.stack.sack.layer) = omega (arith, ap length out) in
    let sent : fifo (tx_message w.stack.radio.radio flush) ≡ length frame ∷ body =
      stack_payload flush reach busy long ∙ out in
    let (u, e, _, _, reads) =
      delivery r before frame rest status ready.unlocked (rw sent at heard)
        (omega (arith, length-append body checksum)) small ready.radio_size ready.sack_size
        ready.device_size ready.released ready.nodes in
    (
      u,
      e,
      reads
          ∙ ap
              (λ (p : List ℕ).
                if goes_up (verdict r.sack (packet_buf frame r.radio.rx_buf_r))
                  && not (
                      is_duplicate before
                        (copied r.sack (packet_buf frame r.radio.rx_buf_r) (length frame + 1)))
                then (value (length frame + 1), p ++ checksum)
                else found r.device)
              (sym form),
    )

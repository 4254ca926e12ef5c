-- ===== src/Stack/Delivery.antt =====
-- What becomes of a frame, from the radio's receive buffer to the reader.
use linux_cc2520_driver.Prelude.{
  ℕ, ◌+◌, ◌≤◌, ◌<◌, ◌≡◌, refl, Bool, true, false, not, ◌&&◌, List, [], ◌∷◌, ◌++◌, Buf, ok, length,
  take, drop, memcpy-ok, take-append, length-copy, length-take, ap, ◌∙◌, if◌then◌else◌, arith,
}
use mathlib.Core.List.{append-nil}
use linux_cc2520_driver.Config.{pkt_buff_size}
use linux_cc2520_driver.Packet.{create_ack}
use linux_cc2520_driver.Layer.{Effect, bottom_tx, top_tx_done, cancel_timer}
use linux_cc2520_driver.Radio.State.{Radio}
use linux_cc2520_driver.Radio.Rx
use linux_cc2520_driver.Radio.Reception.{packet_buf, deliver_frame, take-packet_buf}
use linux_cc2520_driver.Sack.{Sack}
use linux_cc2520_driver.Sack.Receive.{
  Verdict, acknowledged, stray, replied, skipped, passed, verdict, copied, calls, state_after,
  sack_rx_done_lem,
}
use linux_cc2520_driver.Unique.History.{History, is_duplicate}
use linux_cc2520_driver.Unique.Filter.{Represents, rx_done-Represents}
use linux_cc2520_driver.Lpl
use linux_cc2520_driver.Csma
use linux_cc2520_driver.Device
use linux_cc2520_driver.Device.{Return, value, read_woken}
use linux_cc2520_driver.Stack.Upward.{
  Receiver, dispatch, interface_up, unique_up, lpl_up, csma_up, sack_up, hand_up, receive,
}

-- The device with a packet for the readers.
abbrev pub stored : Device.Device → Buf → ℕ → Device.Device
stored d buf len = record d { rx_pkt_len = len; rx_buf_c = take len buf ++ drop len d.rx_buf_c }

abbrev pub stored_if : Bool → Device.Device → Buf → ℕ → Device.Device
stored_if dropped d buf len = if dropped then d else stored d buf len

csma_up_lem :
    (r : Receiver) (before : History) (buf : Buf) (len : ℕ)
    → Represents r.nodes before
    → len ≤ length buf
    → len ≤ length r.device.rx_buf_c
    → (u : Receiver) × (csma_up true r buf len ≡ ok (u, []))
      × (u.device ≡ stored_if (is_duplicate before buf) r.device buf len)
      × (u.radio ≡ r.radio)
      × (u.sack ≡ r.sack)
      × Represents u.nodes (buf ∷ before)
unfolding csma_up lpl_up unique_up interface_up dispatch Lpl.rx_done Csma.rx_done Device.rx_done
csma_up_lem r before buf len rep have fits =
    let (ns, e, rep') = rx_done-Represents r.nodes before buf len rep in
    (
      record r { nodes = ns; device = stored_if (is_duplicate before buf) r.device buf len },
      ground (arith, e, memcpy-ok r.device.rx_buf_c buf len fits have),
      refl,
      refl,
      refl,
      rep',
    )

-- The verdicts that pass the packet up, and the calls that each makes besides.
abbrev pub goes_up : Verdict → Bool
goes_up replied = true
goes_up passed = true
goes_up _ = false

abbrev pub others : Verdict → Buf → List Effect
others acknowledged ack = cancel_timer ∷ top_tx_done 0 ∷ []
others replied ack = bottom_tx ack 6 ∷ []
others _ ack = []

dispatch-calls :
    (what : Verdict) (r u : Receiver) (ack up : Buf) (len : ℕ)
    → csma_up true r up len ≡ ok (u, [])
    → dispatch (csma_up true) r (calls what ack up len)
      ≡ ok (if goes_up what then u else r, others what ack)
unfolding dispatch
dispatch-calls acknowledged r u ack up len e = refl
dispatch-calls stray r u ack up len e = refl
dispatch-calls replied r u ack up len e = rw e
dispatch-calls skipped r u ack up len e = refl
dispatch-calls passed r u ack up len e = rw e

-- What a reader finds after it has been woken.
abbrev pub found : Device.Device → Return × List ℕ
found d = read_woken d true

found-stored :
    (dropped : Bool) (d : Device.Device) (buf : Buf) (len : ℕ)
    → len ≤ length buf
    → found (stored_if dropped d buf len) ≡ (if dropped then found d else (value len, take len buf))
unfolding read_woken
found-stored true d buf len have = refl
found-stored false d buf len have = rw (take-append len buf (drop len d.rx_buf_c) have)

-- The receiver after a packet that has gone up or not.
found-choice :
    (up dropped : Bool) (u mid : Receiver) (buf : Buf) (len : ℕ)
    → u.device ≡ stored_if dropped mid.device buf len
    → u.radio ≡ mid.radio
    → u.sack ≡ mid.sack
    → len ≤ length buf
    → let r : Receiver = if up then u else mid in
      (r.radio ≡ mid.radio)
      × (r.sack ≡ mid.sack)
      × (found r.device
          ≡ (if up && not dropped then (value len, take len buf) else found mid.device))
found-choice false dropped u mid buf len d a b have = (refl, refl, refl)
found-choice true true u mid buf len d a b have = (a, b, rw d refl)
found-choice true false u mid buf len d a b have =
    (a, b, rw d (found-stored false mid.device buf len have))

-- A packet of at least four bytes that a layer below hands to sack.c, with its lock free, and what it
-- has become when that call has returned.
sack_up_lem :
    (r : Receiver) (before : History) (buf : Buf) (len : ℕ)
    → r.sack.sack_sl ≡ false
    → 4 ≤ len
    → len ≤ length buf
    → len ≤ length r.sack.cur_rx_buf
    → len ≤ length r.device.rx_buf_c
    → Represents r.nodes before
    → let what = verdict r.sack buf in
      let up = copied r.sack buf len in
      (u : Receiver) × (sack_up true r buf len ≡ ok (u, others what (create_ack up r.sack.ack_buf)))
      × (u.radio ≡ Rx.release_rx r.radio)
      × (u.sack.sack_state ≡ state_after what r.sack.sack_state)
      × (found u.device ≡ (
          if goes_up what && not (is_duplicate before up)
          then (value len, take len buf)
          else found r.device))
unfolding sack_up
sack_up_lem r before buf len free room have fits store rep =
    let (s, e, state, _, _) = sack_rx_done_lem r.sack buf len free room have fits in
    let up = copied r.sack buf len in
    let what = verdict r.sack buf in
    let ack = create_ack up r.sack.ack_buf in
    let mid : Receiver = record r { sack = s; radio = Rx.release_rx r.radio } in
    let whole : len ≤ length up = omega (arith, length-copy r.sack.cur_rx_buf buf len fits have) in
    let (u, eu, device, radio, sack, _) = csma_up_lem mid before up len rep whole store in
    let (same_radio, same_sack, reads) =
      found-choice (goes_up what) (is_duplicate before up) u mid up len device radio sack whole in
    (
      (if goes_up what then u else mid),
      rw e (dispatch-calls what mid u ack up len eu),
      same_radio,
      ap (λ (t : Sack). t.sack_state) same_sack ∙ state,
      rw (take-append len buf (drop len r.sack.cur_rx_buf) have) at reads,
    )

-- A frame that lies in the SPI buffer behind its status byte, of 3 to 126 bytes, with the radio's
-- receive buffer and sack.c's lock free and a list of nodes that stands for the packets received
-- before: when `finishRx` has handed it up, the radio's buffer is free again; sack.c has answered as
-- the packet's header and its state call for; and a reader that is woken gets the length byte
-- followed by the frame, byte for byte, if the packet is one that goes up and no duplicate of the last
-- one from its source, and otherwise what it would have got before.
pub delivery :
    (r : Receiver) (before : History) (frame rest : List ℕ) (status : ℕ)
    → r.radio.rx_buf_sl ≡ false
    → r.radio.rx_in_buf ≡ status ∷ (frame ++ rest)
    → 3 ≤ length frame
    → length frame < pkt_buff_size
    → length r.radio.rx_buf_r ≡ pkt_buff_size
    → length r.sack.cur_rx_buf ≡ pkt_buff_size
    → length r.device.rx_buf_c ≡ pkt_buff_size
    → r.sack.sack_sl ≡ false
    → Represents r.nodes before
    → let buf = packet_buf frame r.radio.rx_buf_r in
      let up = copied r.sack buf (length frame + 1) in
      let what = verdict r.sack buf in
      (u : Receiver) × (receive true r (length frame)
        ≡ ok (u, others what (create_ack up r.sack.ack_buf)))
      × (u.radio.rx_buf_sl ≡ false)
      × (u.sack.sack_state ≡ state_after what r.sack.sack_state)
      × (found u.device ≡ (
          if goes_up what && not (is_duplicate before up)
          then (value (length frame + 1), length frame ∷ frame)
          else found r.device))
unfolding receive hand_up Rx.release_rx
delivery r before frame rest status free spi room small a b c sl rep =
    let n = length frame + 1 in
    let buf = packet_buf frame r.radio.rx_buf_r in
    let radio : Radio = record r.radio { rx_buf_sl = true; rx_buf_r = buf } in
    let up = copied r.sack buf n in
    let what = verdict r.sack buf in
    let first : take n buf ≡ length frame ∷ frame =
      take-packet_buf frame r.radio.rx_buf_r (omega arith) in
    let whole : n ≤ length buf = omega (arith, length-take n buf, ap length first) in
    let (u, e, same, state, reads) =
      sack_up_lem (record r { radio = radio }) before buf n sl (omega arith) whole (omega arith)
        (omega arith) rep in
    (
      u,
      rw (deliver_frame r.radio frame rest status free spi (omega arith))
          (rw e (ap (λ (es : List Effect). ok (u, es)) (append-nil _))),
      rw same refl,
      state,
      reads
          ∙ ap
              (λ (got : List ℕ).
                if goes_up what && not (is_duplicate before up)
                then (value n, got)
                else found r.device)
              first,
    )

-- ===== src/Stack/Journey/Arrival.antt =====
-- A frame that arrives, and the two layers switched off.
use linux_cc2520_driver.Prelude.{
  ◌+◌, ◌≡◌, refl, true, false, not, ◌&&◌, [], ◌∷◌, ◌++◌, Buf, ok, length, replicate, if◌then◌else◌,
  arith,
}
use linux_cc2520_driver.Packet.{create_ack}
use linux_cc2520_driver.Layer.{bottom_tx, top_tx_done, top_rx_done}
use linux_cc2520_driver.Radio.State
use linux_cc2520_driver.Radio.Tx
use linux_cc2520_driver.Radio.Reception.{packet_buf}
use linux_cc2520_driver.Sack
use linux_cc2520_driver.Sack.Receive.{verdict, copied, state_after}
use linux_cc2520_driver.Csma
use linux_cc2520_driver.Lpl
use linux_cc2520_driver.Unique
use linux_cc2520_driver.Unique.Filter.{init-Represents}
use linux_cc2520_driver.Unique.History.{is_duplicate}
use linux_cc2520_driver.Device
use linux_cc2520_driver.Device.{value}
use linux_cc2520_driver.Stack.Upward.{Receiver, receive}
use linux_cc2520_driver.Stack.Delivery.{others, goes_up, found, delivery}
use linux_cc2520_driver.Stack.Link.{IsReady, written-read}
use linux_cc2520_driver.Stack.Bypass.{through_all, through_all-wire}
use linux_cc2520_driver.Stack.Bypass
use linux_cc2520_driver.Stack.Tests.{broadcast}
use linux_cc2520_driver.Stack.Journey.{transmitting}

abbrev fresh : Buf
fresh = replicate 127 0

-- A machine whose chip has returned `replied`.
abbrev hearing : Buf → Receiver
hearing replied = record {
  radio = record (State.init (replicate 256 0) fresh fresh) { rx_in_buf = replied };
  sack = Sack.init (replicate 6 0) fresh fresh;
  csma = Csma.init fresh;
  lpl = Lpl.init fresh;
  nodes = Unique.init;
  device = Device.init fresh fresh;
}

-- A data frame that asks for an acknowledgement.
abbrev frame : Buf
frame = 0x61 ∷ 0x88 ∷ 7 ∷ 0x22 ∷ 0 ∷ 2 ∷ 0 ∷ 1 ∷ 0 ∷ 0xAA ∷ 0 ∷ 0 ∷ []

abbrev target : Receiver
target = hearing (0 ∷ (frame ++ []))

delivery_example :
    let buf = packet_buf frame target.radio.rx_buf_r in
    let up = copied target.sack buf (length frame + 1) in
    let what = verdict target.sack buf in
    (u : Receiver) × (receive true target (length frame)
      ≡ ok (u, others what (create_ack up target.sack.ack_buf)))
    × (u.radio.rx_buf_sl ≡ false)
    × (u.sack.sack_state ≡ state_after what target.sack.sack_state)
    × (found u.device ≡ (
        if goes_up what && not (is_duplicate [] up)
        then (value (length frame + 1), length frame ∷ frame)
        else found target.device))
unfolding State.init Sack.init Device.init
delivery_example =
    delivery target [] frame [] 0 refl refl (omega arith) (omega arith) refl refl refl refl
      init-Represents

abbrev checksum : Buf
checksum = 0x30 ∷ 0x80 ∷ []

abbrev body : Buf
body = 0x41 ∷ 0x88 ∷ 7 ∷ []

abbrev listener : Receiver
listener = hearing (0 ∷ ((body ++ checksum) ++ []))

listener-IsReady : IsReady listener []
unfolding State.init Sack.init Device.init
listener-IsReady = record {
  unlocked = refl;
  radio_size = refl;
  sack_size = refl;
  device_size = refl;
  released = refl;
  nodes = init-Represents;
}

written-read_example :
    let buf = packet_buf (body ++ checksum) listener.radio.rx_buf_r in
    let up = copied listener.sack buf 6 in
    let what = verdict listener.sack buf in
    (u : Receiver) × (receive true listener 5
      ≡ ok (u, others what (create_ack up listener.sack.ack_buf)))
    × (found u.device ≡ (
        if goes_up what && not (is_duplicate [] up)
        then (value 6, broadcast ++ checksum)
        else found listener.device))
unfolding State.init transmitting Tx.tx_message
written-read_example =
    written-read true listener [] body checksum [] 0 transmitting.1 refl refl refl (omega arith)
      refl (omega arith) listener-IsReady refl

through_all-wire_example :
    through_all 9
      (Lpl.set_enabled (Lpl.init fresh) false, Csma.set_enabled (Csma.init fresh) false)
      (Bypass.tx broadcast 4 ∷ Bypass.tx_done 255 ∷ Bypass.rx_done frame 12 ∷ [])
    ≡ ok (
      (Lpl.set_enabled (Lpl.init fresh) false, Csma.set_enabled (Csma.init fresh) false),
      bottom_tx broadcast 4 ∷ top_tx_done 255 ∷ top_rx_done frame 12 ∷ [],
    )
unfolding Lpl.set_enabled Csma.set_enabled
through_all-wire_example =
    through_all-wire (Lpl.set_enabled (Lpl.init fresh) false)
      (Csma.set_enabled (Csma.init fresh) false) 9
      (Bypass.tx broadcast 4 ∷ Bypass.tx_done 255 ∷ Bypass.rx_done frame 12 ∷ []) refl refl

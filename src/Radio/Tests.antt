-- ===== src/Radio/Tests.antt =====
-- The radio on concrete packets and settings, and the theorems at them.
use linux_cc2520_driver.Prelude.{
  ℕ, ◌+◌, ◌≤◌, ◌<◌, ◌≡◌, refl, true, false, some, List, [], ◌∷◌, Buf, ok, fault, memcpy, replicate,
  take, get_or, arith,
}
use linux_cc2520_driver.Radio.State.{
  Radio, tx_sfd_done, init, continue_tx_check, continue_tx, RxCallback, continue_rx, finish_rx,
  RadioEffect, spi_sync, spi_async_tx, spi_async_rx, top_tx_done, top_rx_done,
}
use linux_cc2520_driver.Radio.Config.{on, set_address}
use linux_cc2520_driver.Radio.Tx.{tx_packet, tx_message, tx_check, tx_written, sfd_occurred}
use linux_cc2520_driver.Radio.Rx.{spi_reply, fifop_occurred, rx_length, rx_deliver, rx_after}
use linux_cc2520_driver.Radio.Address.{ram_write, LocalAddress, set_address-LocalAddress}
use linux_cc2520_driver.Radio.Frames.{fifo, fifo_bytes, message_length, tx_message-fifo}
use linux_cc2520_driver.Radio.Transmission.{loaded, over, transmission}
use linux_cc2520_driver.Radio.TxWorld
use linux_cc2520_driver.Radio.TxCompletion.{load, wants_spi, is_resting, is_some, radio_completion}
use linux_cc2520_driver.Radio.Reception.{packet_buf, reading, reception, rx_deliver-overflow}
use linux_cc2520_driver.Radio.RxWorld
use linux_cc2520_driver.Radio.RxWorld.{rx_gate}
use linux_cc2520_driver.Radio.Rest.{
  completion, HasRoom, rank, Descends, is_completion, rx_comes_to_rest,
}

abbrev quiet : Radio
unfolding init
quiet = init (replicate 256 0) (replicate 127 0) (replicate 127 0)

-- The message of tests/write.c.
abbrev test_msg : Buf
test_msg = 0x0D ∷ 0x61 ∷ 0x88 ∷ 7 ∷ 0x22 ∷ 0x00 ∷ 0x01 ∷ 0x00 ∷ 0x01 ∷ 0x00 ∷ 0x72 ∷ 7 ∷ []

-- Channel 26 as the default, with the default addresses, and then SRXON.
on_messages :
    on quiet
    ≡ ok (
      quiet,
      spi_sync ((0xEE ∷ 86 ∷ []) ∷ [])
          ∷ spi_sync ((0x23 ∷ 0xEA ∷ 1 ∷ 0 ∷ 0 ∷ 0 ∷ 0 ∷ 0 ∷ 0 ∷ 0 ∷ 0x22 ∷ 0 ∷ 1 ∷ 0 ∷ []) ∷ [])
          ∷ spi_sync ((0x42 ∷ []) ∷ [])
          ∷ [],
    )
unfolding on init
on_messages = refl

set_address-LocalAddress_example :
    (block : List ℕ) × (e : RadioEffect) × (set_address quiet 5 0x1122334455667788 0x23 ≡ (
      record quiet { short_addr = 5; extended_addr = 0x1122334455667788; pan_id = 0x23 },
      e ∷ [],
    ))
    × (ram_write e ≡ some (0x3EA, block))
    × LocalAddress block 5 0x1122334455667788 0x23
set_address-LocalAddress_example =
    set_address-LocalAddress quiet 5 0x1122334455667788 0x23 (omega arith) (omega arith)
      (omega arith)

abbrev sending : Radio
unfolding init
sending = loaded quiet test_msg 12

tx_message-fifo_example :
    (fifo (tx_message sending true) ≡ test_msg)
    × (fifo_bytes (get_or (tx_message sending true) 0 []) ≡ 0x0D ∷ 0x61 ∷ 0x88 ∷ [])
    × (get_or (tx_message sending true) 1 [] ≡ 0x43 ∷ [])
    × (message_length (tx_message sending true) ≤ 256)
unfolding init
tx_message-fifo_example = tx_message-fifo sending true (omega arith) (omega arith) (omega arith)

transmission_example :
    (by_spi : Radio) × (by_sfd : Radio) × (tx_packet quiet test_msg 12
      ≡ ok (sending, spi_async_tx ((0x45 ∷ []) ∷ []) continue_tx_check ∷ []))
    × (tx_check sending true
        ≡ ok (sending, spi_async_tx (tx_message sending true) continue_tx ∷ []))
    × (tx_written sending 0 ≡ ok (by_spi, []))
    × (sfd_occurred by_spi 99 false ≡ ok (over quiet test_msg 12 99, top_tx_done 0 ∷ []))
    × (sfd_occurred sending 99 false ≡ ok (by_sfd, []))
    × (tx_written by_sfd 0 ≡ ok (over quiet test_msg 12 99, top_tx_done 0 ∷ []))
unfolding init
transmission_example =
    transmission quiet test_msg 12 true 0 99 refl (omega arith) (omega arith) refl

-- A packet whose frame ended before its SPI message was through.
sfd_first_world :
    (w : TxWorld.TxWorld) × TxWorld.Reach
      (TxWorld.begin (replicate 256 0) (replicate 127 0) (replicate 127 0))
      w
    × (w.radio.radio_state ≡ tx_sfd_done)
    × (w.accepted ≡ 1)
unfolding init tx_packet tx_check sfd_occurred memcpy
sfd_first_world = (
  _,
  TxWorld.Reach.next
      (TxWorld.Reach.next
        (TxWorld.Reach.next TxWorld.Reach.here (TxWorld.Step.send test_msg 12 _ _ refl refl))
        (TxWorld.Step.check false _ _ refl refl refl))
      (TxWorld.Step.sfd 99 false _ _ refl refl),
  refl,
  refl,
)

radio_completion_example :
    (sfd_first_world.0.accepted
      ≡ sfd_first_world.0.completed + load sfd_first_world.0.radio.radio_state)
    × (is_some sfd_first_world.0.spi ≡ wants_spi sfd_first_world.0.radio.radio_state)
    × (is_resting sfd_first_world.0.radio.radio_state ≡ true)
radio_completion_example =
    radio_completion (replicate 256 0) (replicate 127 0) (replicate 127 0) sfd_first_world.1

-- An acknowledgement of five bytes.
abbrev ack_frame : List ℕ
ack_frame = 2 ∷ 0 ∷ 7 ∷ 0xA0 ∷ 0xEB ∷ []

reception_example :
    let asked = spi_reply (reading quiet) (0 ∷ 5 ∷ []) in
    let read = spi_reply asked (0 ∷ ack_frame) in
    let buf = packet_buf ack_frame (replicate 127 0) in
    let up = record read { rx_buf_sl = true; rx_buf_r = buf } in
    (fifop_occurred quiet
      ≡ ok (reading quiet, spi_async_rx ((0x30 ∷ 0 ∷ []) ∷ []) continue_rx ∷ []))
    × (rx_length asked ≡ ok (asked, spi_async_rx ((0x30 ∷ replicate 5 0) ∷ []) (finish_rx 5) ∷ []))
    × (rx_deliver read 5 ≡ ok (up, top_rx_done buf 6 ∷ []))
    × (take 6 buf ≡ 5 ∷ ack_frame)
    × (rx_after up false ≡ ok (record up { pending_rx = false }, []))
unfolding init
reception_example = reception quiet ack_frame 0 0 refl refl refl (omega arith)

abbrev long_read : Radio
unfolding init
long_read = record quiet { rx_in_buf = 0 ∷ 127 ∷ replicate 254 0 }

rx_deliver-overflow_example :
    (rx_length long_read
      ≡ ok (long_read, spi_async_rx ((0x30 ∷ replicate 127 0) ∷ []) (finish_rx 127) ∷ []))
    × (rx_deliver long_read 127 ≡ fault)
unfolding init
rx_deliver-overflow_example = rx_deliver-overflow long_read refl refl refl

abbrev waiting : RxWorld.RxWorld
unfolding init
waiting = record {
  radio = reading quiet;
  stage = RxWorld.Stage.awaiting continue_rx;
  begun = 1;
  received = 0;
}

waiting_reached :
    RxWorld.Reach (RxWorld.begin (replicate 256 0) (replicate 127 0) (replicate 127 0)) waiting
unfolding init fifop_occurred
waiting_reached = RxWorld.Reach.next RxWorld.Reach.here (RxWorld.Step.fifop _ _ refl refl)

rx_gate_example : (waiting.radio.pending_rx ≡ true) × (0 + 1 ≤ 1)
unfolding init
rx_gate_example = rx_gate (replicate 256 0) (replicate 127 0) (replicate 127 0) waiting_reached

-- A length byte of 200: the engine goes on with the first flush.
abbrev too_long : RxWorld.RxWorld
unfolding init
too_long = record waiting {
  radio = record quiet { pending_rx = true; rx_in_buf = 0 ∷ 200 ∷ replicate 254 0 };
  stage = RxWorld.Stage.awaiting RxCallback.continue_flush_rx;
}

waiting-too_long : completion waiting.stage waiting (0 ∷ 200 ∷ []) false ≡ ok too_long
unfolding init rx_length spi_reply
waiting-too_long = refl

-- A frame of 5 bytes that has been read, with the buffer released.
frame_waiting :
    (w : RxWorld.RxWorld) × RxWorld.Reach
      (RxWorld.begin (replicate 256 0) (replicate 127 0) (replicate 127 0))
      w
    × (w.stage ≡ RxWorld.Stage.awaiting (finish_rx 5))
    × HasRoom w.stage (spi_reply w.radio (0 ∷ replicate 5 7))
unfolding init fifop_occurred rx_length spi_reply
frame_waiting = (
  _,
  RxWorld.Reach.next waiting_reached (RxWorld.Step.length_read (0 ∷ 5 ∷ []) _ _ refl refl refl),
  refl,
  (refl, omega arith, omega arith),
)

rx_comes_to_rest_example :
    ((u : RxWorld.RxWorld) × (completion frame_waiting.0.stage frame_waiting.0
          (0 ∷ replicate 5 7)
          true
        ≡ ok u)
      × RxWorld.Step frame_waiting.0 u
      × (rank u.stage < 4))
    × ((u : RxWorld.RxWorld) (st : RxWorld.Step frame_waiting.0 u)
        → Descends (is_completion st) frame_waiting.0.stage u.stage)
unfolding init frame_waiting
rx_comes_to_rest_example =
    rx_comes_to_rest (replicate 256 0) (replicate 127 0) (replicate 127 0) (0 ∷ replicate 5 7) true
      frame_waiting.1 refl frame_waiting.3

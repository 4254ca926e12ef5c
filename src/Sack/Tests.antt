-- ===== src/Sack/Tests.antt =====
-- The layer on concrete packets, and the theorems at them.
use linux_cc2520_driver.Prelude.{
  ℕ, ◌+◌, ◌≡◌, refl, false, [], ◌∷◌, ◌++◌, Buf, ok, memcpy, replicate, take, arith,
}
use linux_cc2520_driver.Packet.{requires_ack_wait, is_ack, create_ack}
use linux_cc2520_driver.Layer.{
  bottom_tx, top_tx_done, top_rx_done, start_timer, cancel_timer, release_rx, us_to_ns,
}
use linux_cc2520_driver.Ledger.{World}
use linux_cc2520_driver.Sack.{
  Sack, idle, tx, tx_wait, is_tx_wait, init, tx_packet, tx_done, rx_done,
}
use linux_cc2520_driver.Sack.World.{start, send, finish, Reach, here, next}
use linux_cc2520_driver.Sack.Completion.{load, on_air, sack_completion}
use linux_cc2520_driver.Sack.Receive.{copied, verdict, calls, state_after, sack_rx_done_lem}
use linux_cc2520_driver.Sack.Exchange.{IsSending, IsListening, exchange}

abbrev fresh : ℕ → Buf
fresh n = replicate n 0

abbrev unicast : Buf
unicast = 5 ∷ 0x61 ∷ 0x88 ∷ 7 ∷ []

abbrev quiet : Sack
unfolding init
quiet = init (fresh 6) (fresh 127) (fresh 127)

abbrev sender : Sack
unfolding init
sender = record quiet { sack_state = tx; cur_tx_buf = unicast ++ fresh 123 }

sack_rx_done_lem_example :
    (s' : Sack) × (rx_done quiet unicast 4
      ≡ ok (
        s',
        release_rx
            ∷ calls
                (verdict quiet unicast)
                (create_ack (copied quiet unicast 4) quiet.ack_buf)
                (copied quiet unicast 4)
                4,
      ))
    × (s'.sack_state ≡ state_after (verdict quiet unicast) idle)
    × (s'.cur_tx_buf ≡ fresh 127)
    × (s'.sack_sl ≡ false)
unfolding init
sack_rx_done_lem_example =
    sack_rx_done_lem quiet unicast 4 refl (omega arith) (omega arith) (omega arith)

sender-IsSending : IsSending sender 4
unfolding init requires_ack_wait is_ack
sender-IsSending = record {
  unlocked = refl;
  sending = refl;
  asks = refl;
  no_ack = refl;
  header = omega arith;
  in_buffer = omega arith;
  room = omega arith;
}

quiet-IsListening : IsListening quiet 4
unfolding init
quiet-IsListening = record {
  unlocked = refl;
  free = refl;
  room = omega arith;
  ack_room = omega arith;
}

exchange_example :
    let got = copied quiet sender.cur_tx_buf 4 in
    let ack = create_ack got quiet.ack_buf in
    (r' : Sack) × (s' : Sack) × (tx_done sender 0
      ≡ ok (record sender { sack_state = tx_wait }, start_timer (us_to_ns 2500) ∷ []))
    × (rx_done quiet sender.cur_tx_buf 4
        ≡ ok (r', release_rx ∷ bottom_tx ack 6 ∷ top_rx_done got 4 ∷ []))
    × (take 4 got ≡ unicast)
    × (rx_done (record sender { sack_state = tx_wait }) ack 6
        ≡ ok (s', release_rx ∷ cancel_timer ∷ top_tx_done 0 ∷ []))
    × (s'.sack_state ≡ idle)
unfolding init
exchange_example = exchange sender quiet 4 0 sender-IsSending quiet-IsListening

-- A packet that asks for an acknowledgement, sent and through.
waiting_world :
    (w : World Sack) × Reach (start (fresh 6) (fresh 127) (fresh 127)) w
    × (w.layer.sack_state ≡ tx_wait)
    × (w.ledger.accepted ≡ 1)
unfolding init tx_packet tx_done memcpy requires_ack_wait
waiting_world = (
  _,
  next (next here (send unicast 4 _ _ refl refl)) (finish 0 _ _ (omega arith) refl refl),
  refl,
  refl,
)

sack_completion_example :
    (waiting_world.0.layer.sack_sl ≡ false)
    × (waiting_world.0.ledger.accepted
        ≡ waiting_world.0.ledger.completed + load waiting_world.0.layer.sack_state)
    × (waiting_world.0.ledger.sending ≡ on_air waiting_world.0.layer.sack_state)
    × (waiting_world.0.ledger.armed ≡ is_tx_wait waiting_world.0.layer.sack_state)
sack_completion_example = sack_completion (fresh 6) (fresh 127) (fresh 127) waiting_world.1

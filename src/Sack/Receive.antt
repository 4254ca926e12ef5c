-- ===== src/Sack/Receive.antt =====
-- What becomes of a received packet, by its own header and the state.
use linux_cc2520_driver.Prelude.{
  ℕ, ◌≤◌, ◌≡◌, refl, false, ◌&&◌, List, [], ◌∷◌, ◌++◌, Buf, ok, length, take, drop, memcpy-ok,
  arith, if◌then◌else◌,
}
use linux_cc2520_driver.Packet.{requires_ack_reply, is_ack, is_ack_to, create_ack}
use linux_cc2520_driver.Packet.Copy.{is_ack-copy, is_ack_to-copy, requires_ack_reply-copy}
use linux_cc2520_driver.Layer.{
  Effect, bottom_tx, top_tx_done, top_rx_done, cancel_timer, release_rx,
}
use linux_cc2520_driver.Sack.{Sack, State, idle, tx_ack, is_tx_wait, is_idle, rx_done}

-- The copy of a packet in the layer's receive buffer.
abbrev pub copied : Sack → Buf → ℕ → Buf
copied s buf len = take len buf ++ drop len s.cur_rx_buf

-- What the header of a packet and the state call for.
pub data Verdict : Type 0 where
  acknowledged stray replied skipped passed : Verdict

abbrev pub verdict : Sack → Buf → Verdict
verdict s buf =
    if is_ack buf
    then (if is_tx_wait s.sack_state && is_ack_to buf s.cur_tx_buf then acknowledged else stray)
    else if requires_ack_reply buf
    then (if is_idle s.sack_state then replied else skipped)
    else passed

abbrev pub calls : Verdict → Buf → Buf → ℕ → List Effect
calls acknowledged ack packet len = cancel_timer ∷ top_tx_done 0 ∷ []
calls stray ack packet len = []
calls replied ack packet len = bottom_tx ack 6 ∷ top_rx_done packet len ∷ []
calls skipped ack packet len = []
calls passed ack packet len = top_rx_done packet len ∷ []

abbrev pub state_after : Verdict → State → State
state_after acknowledged st = idle
state_after replied st = tx_ack
state_after _ st = st

-- With the lock free, a packet of at least four bytes that fits the buffer is copied and the
-- radio's buffer is released first, once. Then the header of the packet as received and the state
-- decide: the awaited acknowledgement ends the wait and reports success; any other acknowledgement
-- is ignored; a packet that asks for an acknowledgement is acknowledged and passed up if the layer
-- is idle, and otherwise neither; every other packet is passed up.
pub sack_rx_done_lem :
    (s : Sack) (buf : Buf) (len : ℕ)
    → s.sack_sl ≡ false
    → 4 ≤ len
    → len ≤ length buf
    → len ≤ length s.cur_rx_buf
    → (s' : Sack) × (rx_done s buf len
        ≡ ok (
          s',
          release_rx
              ∷ calls
                  (verdict s buf)
                  (create_ack (copied s buf len) s.ack_buf)
                  (copied s buf len)
                  len,
        ))
      × (s'.sack_state ≡ state_after (verdict s buf) s.sack_state)
      × (s'.cur_tx_buf ≡ s.cur_tx_buf)
      × (s'.sack_sl ≡ false)
unfolding rx_done
sack_rx_done_lem s buf len free room have fits = (
  record s {
    cur_rx_buf = copied s buf len;
    cur_rx_buf_len = len;
    sack_state = state_after (verdict s buf) s.sack_state;
    ack_buf = ack_after (verdict s buf);
  },
  ground (
    arith,
    memcpy-ok s.cur_rx_buf buf len fits have,
    is_ack-copy len buf rest room have,
    is_ack_to-copy len buf rest room have s.cur_tx_buf,
    requires_ack_reply-copy len buf rest room have,
  ),
  refl,
  refl,
  free,
)
  where
    rest : Buf
    rest = drop len s.cur_rx_buf

    ack_after : Verdict → Buf
    ack_after replied = create_ack (copied s buf len) s.ack_buf
    ack_after _ = s.ack_buf

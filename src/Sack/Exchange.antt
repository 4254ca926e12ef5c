-- ===== src/Sack/Exchange.antt =====
-- A packet and its acknowledgement between two radios that run this layer.
use linux_cc2520_driver.Prelude.{
  ℕ, ◌≤◌, ◌≡◌, refl, true, false, [], ◌∷◌, Buf, ok, length, take, drop, take-append, arith,
}
use linux_cc2520_driver.Packet.{
  requires_ack_wait, requires_ack_reply, is_ack, is_ack_to, create_ack,
}
use linux_cc2520_driver.Packet.Ack.{create_ack-is_ack}
use linux_cc2520_driver.Packet.Copy.{header_dsn-copy}
use linux_cc2520_driver.Layer.{
  bottom_tx, top_tx_done, top_rx_done, start_timer, cancel_timer, release_rx, us_to_ns,
}
use linux_cc2520_driver.Sack.{Sack, idle, tx, tx_wait, tx_ack, tx_done, rx_done}
use linux_cc2520_driver.Sack.Receive.{copied, sack_rx_done_lem}

-- `s` has handed its packet to the radio; the packet asks for an acknowledgement and is none.
pub record IsSending (s : Sack) (len : ℕ) : Type 0 where
  pub unlocked : s.sack_sl ≡ false
  pub sending : s.sack_state ≡ tx
  pub asks : requires_ack_wait s.cur_tx_buf ≡ true
  pub no_ack : is_ack s.cur_tx_buf ≡ false
  pub header : 4 ≤ len
  pub in_buffer : len ≤ length s.cur_tx_buf
  pub room : 6 ≤ length s.cur_rx_buf

-- `r` can take a packet of `len` bytes.
pub record IsListening (r : Sack) (len : ℕ) : Type 0 where
  pub unlocked : r.sack_sl ≡ false
  pub free : r.sack_state ≡ idle
  pub room : len ≤ length r.cur_rx_buf
  pub ack_room : 6 ≤ length r.ack_buf

sender_waits :
    (s : Sack) (len status : ℕ)
    → IsSending s len
    → tx_done s status
      ≡ ok (record s { sack_state = tx_wait }, start_timer (us_to_ns s.ack_timeout) ∷ [])
unfolding tx_done
sender_waits s len status v = ground arith

receiver_replies :
    (r : Sack) (packet : Buf) (len : ℕ)
    → IsListening r len
    → 4 ≤ len
    → len ≤ length packet
    → requires_ack_reply packet ≡ true
    → is_ack packet ≡ false
    → (r' : Sack) × (rx_done r packet len
        ≡ ok (
          r',
          release_rx
              ∷ bottom_tx (create_ack (copied r packet len) r.ack_buf) 6
              ∷ top_rx_done (copied r packet len) len
              ∷ [],
        ))
      × (r'.sack_state ≡ tx_ack)
receiver_replies r packet len v header have asks no_ack =
    let (r', e, st, _, _) = sack_rx_done_lem r packet len v.unlocked header have v.room in
    (r', ground (arith, e), ground (arith, st))

sender_finishes :
    (s : Sack) (ack : Buf)
    → s.sack_sl ≡ false
    → s.sack_state ≡ tx_wait
    → is_ack ack ≡ true
    → is_ack_to ack s.cur_tx_buf ≡ true
    → 6 ≤ length ack
    → 6 ≤ length s.cur_rx_buf
    → (s' : Sack) × (rx_done s ack 6 ≡ ok (s', release_rx ∷ cancel_timer ∷ top_tx_done 0 ∷ []))
      × (s'.sack_state ≡ idle)
sender_finishes s ack unlocked waits a to have room =
    let (s', e, st, _, _) = sack_rx_done_lem s ack 6 unlocked (omega arith) have room in
    (s', ground (arith, e), ground (arith, st))

ack_matches :
    (s r : Sack) (len : ℕ)
    → IsSending s len
    → IsListening r len
    → is_ack_to (create_ack (copied r s.cur_tx_buf len) r.ack_buf) s.cur_tx_buf ≡ true
unfolding is_ack_to
ack_matches s r len v w = ground (
  arith,
  create_ack-is_ack (copied r s.cur_tx_buf len) r.ack_buf,
  header_dsn-copy len s.cur_tx_buf (drop len r.cur_rx_buf) v.header v.in_buffer,
)

asks_reply : (buf : Buf) → requires_ack_wait buf ≡ true → requires_ack_reply buf ≡ true
unfolding requires_ack_wait requires_ack_reply
asks_reply buf h = h

-- A sender whose packet, asking for an acknowledgement, has gone out waits for it under a timer;
-- an idle receiver of the packet sends an acknowledgement of six bytes and passes the packet's
-- bytes up; that acknowledgement, received by the sender, ends the wait: the timer is cancelled,
-- success is reported once and the sender is idle.
pub exchange :
    (s r : Sack) (len status : ℕ)
    → IsSending s len
    → IsListening r len
    → let s1 = record s { sack_state = tx_wait } in
      let got = copied r s.cur_tx_buf len in
      let ack = create_ack got r.ack_buf in
      (r' : Sack) × (s' : Sack) × (tx_done s status
        ≡ ok (s1, start_timer (us_to_ns s.ack_timeout) ∷ []))
      × (rx_done r s.cur_tx_buf len
          ≡ ok (r', release_rx ∷ bottom_tx ack 6 ∷ top_rx_done got len ∷ []))
      × (take len got ≡ take len s.cur_tx_buf)
      × (rx_done s1 ack 6 ≡ ok (s', release_rx ∷ cancel_timer ∷ top_tx_done 0 ∷ []))
      × (s'.sack_state ≡ idle)
exchange s r len status v w =
    let got = copied r s.cur_tx_buf len in
    let (a, _, _, _, size) = create_ack-is_ack got r.ack_buf (omega (arith, w.ack_room)) in
    let (r', replies, _) =
      receiver_replies r s.cur_tx_buf len w v.header v.in_buffer (asks_reply s.cur_tx_buf v.asks)
        v.no_ack in
    let (s', finishes, done) =
      sender_finishes (record s { sack_state = tx_wait }) (create_ack got r.ack_buf) v.unlocked refl
        a (ack_matches s r len v w) (omega (arith, size, w.ack_room)) v.room in
    (
      r',
      s',
      sender_waits s len status v,
      replies,
      take-append len s.cur_tx_buf (drop len r.cur_rx_buf) v.in_buffer,
      finishes,
      done,
    )

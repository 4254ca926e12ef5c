-- ===== src/Sack.antt =====
-- sack.c: software acknowledgements. An outgoing packet that asks for it waits for its
-- acknowledgement before it is reported; an incoming one that asks for it is acknowledged.
-- The spinlock is part of the state, since one path of `tx_done` does not release it; a handler that
-- meets it held spins (`blocked`). A section under the lock runs without interleaving.
pub mod World
pub mod Payload
pub mod Advance
pub mod Report
pub mod Completion
pub mod Receive
pub mod Exchange
pub mod Deadlock
pub mod Hold
mod Tests
use linux_cc2520_driver.Prelude.{
  ℕ, ◌+◌, Bool, true, false, List, [], ◌∷◌, Buf, Outcome, ok, fault, blocked, ◌>>=◌, memcpy, ◌&&◌,
  if◌then◌else◌,
}
use linux_cc2520_driver.Config.{tx_success, tx_ack_timeout, neg_u8, def_ack_timeout}
use linux_cc2520_driver.Packet.{
  requires_ack_wait, requires_ack_reply, is_ack, is_ack_to, create_ack, ack_frame_length,
}
use linux_cc2520_driver.Layer.{
  Effect, bottom_tx, top_tx_done, top_rx_done, start_timer, cancel_timer, release_rx, Handled,
  us_to_ns,
}

-- enum cc2520_sack_state_enum
pub data State : Type 0 where
  idle tx tx_wait tx_ack : State

pub record Sack : Type 0 where
  pub ack_buf : Buf
  pub cur_tx_buf : Buf
  pub cur_rx_buf : Buf
  pub cur_rx_buf_len : ℕ
  pub ack_timeout : ℕ
  pub sack_state : State
  -- `sack_sl` is held
  pub sack_sl : Bool

-- The variables after a successful `cc2520_sack_init`, for the bytes that `kmalloc` returned.
unfoldable pub init : Buf → Buf → Buf → Sack
init ack_fresh tx_fresh rx_fresh = record {
  ack_buf = ack_fresh;
  cur_tx_buf = tx_fresh;
  cur_rx_buf = rx_fresh;
  cur_rx_buf_len = 0;
  ack_timeout = def_ack_timeout;
  sack_state = idle;
  sack_sl = false;
}

unfoldable pub set_timeout : Sack → ℕ → Sack
set_timeout s timeout = record s { ack_timeout = timeout }

-- `spin_lock_irqsave(&sack_sl, flags)` before the rest of a handler.
abbrev pub with_lock : Sack → Handled Sack → Handled Sack
with_lock s rest = if s.sack_sl then blocked else rest

-- The loop of `cc2520_sack_tx` leaves only an idle layer; in another state it spins.
unfoldable pub tx_locked : State → Sack → Buf → ℕ → Handled Sack
tx_locked idle s buf len = do
  cur_tx_buf ← memcpy s.cur_tx_buf buf len
  ok (record s { sack_state = tx; cur_tx_buf = cur_tx_buf }, bottom_tx cur_tx_buf len ∷ [])
tx_locked _ s buf len = blocked

-- `cc2520_sack_tx`
unfoldable pub tx_packet : Sack → Buf → ℕ → Handled Sack
unfolding tx_locked
tx_packet s buf len = with_lock s (tx_locked s.sack_state s buf len)

-- The last clause is the branch that logs an error and returns with the lock held.
unfoldable pub done_locked : State → Sack → ℕ → Handled Sack
done_locked tx s status =
    if requires_ack_wait s.cur_tx_buf
    then ok (record s { sack_state = tx_wait }, start_timer (us_to_ns s.ack_timeout) ∷ [])
    else ok (record s { sack_state = idle }, top_tx_done status ∷ [])
done_locked tx_ack s status = ok (record s { sack_state = idle }, [])
done_locked _ s status = ok (record s { sack_sl = true }, [])

-- `cc2520_sack_tx_done`
unfoldable pub tx_done : Sack → ℕ → Handled Sack
unfolding done_locked
tx_done s status = with_lock s (done_locked s.sack_state s status)

abbrev pub is_tx_wait : State → Bool
is_tx_wait tx_wait = true
is_tx_wait _ = false

abbrev pub is_idle : State → Bool
is_idle idle = true
is_idle _ = false

-- The part of `cc2520_sack_rx_done` under the lock, for the copied packet.
rx_locked : Sack → Handled Sack
rx_locked s =
    let packet = s.cur_rx_buf in
    let up = top_rx_done packet s.cur_rx_buf_len in
    if is_ack packet
    then (if is_tx_wait s.sack_state && is_ack_to packet s.cur_tx_buf
        then ok (
          record s { sack_state = idle },
          release_rx ∷ cancel_timer ∷ top_tx_done tx_success ∷ [],
        )
        else ok (s, release_rx ∷ []))
    else (if requires_ack_reply packet
        then (let ack = create_ack packet s.ack_buf in
            if is_idle s.sack_state
            then ok (
              record s { sack_state = tx_ack; ack_buf = ack },
              release_rx ∷ bottom_tx ack (ack_frame_length + 1) ∷ up ∷ [],
            )
            else ok (s, release_rx ∷ []))
        else ok (s, release_rx ∷ up ∷ []))

-- `cc2520_sack_rx_done`: the packet is copied, and the radio's buffer released, before the lock.
unfoldable pub rx_done : Sack → Buf → ℕ → Handled Sack
unfolding rx_locked
rx_done s buf len = do
  cur_rx_buf ← memcpy s.cur_rx_buf buf len
  with_lock s (rx_locked (record s { cur_rx_buf = cur_rx_buf; cur_rx_buf_len = len }))

timer_locked : State → Sack → Handled Sack
timer_locked tx_wait s =
    ok (record s { sack_state = idle }, top_tx_done (neg_u8 tx_ack_timeout) ∷ [])
timer_locked _ s = ok (s, [])

-- `cc2520_sack_timer_cb`
unfoldable pub timer_cb : Sack → Handled Sack
unfolding timer_locked
timer_cb s = with_lock s (timer_locked s.sack_state s)

-- ===== src/Lpl/Toggle.antt =====
-- Switching LPL on or off while a packet is under way.
use linux_cc2520_driver.Prelude.{ℕ, ◌≡◌, ◌≢◌, refl, true, false, List, [], ◌∷◌, map, Buf, ok, arith}
use linux_cc2520_driver.Packet.{requires_ack_wait}
use linux_cc2520_driver.Layer.{bottom_tx, top_tx_done}
use linux_cc2520_driver.Lpl.{
  Lpl, State, idle, tx, timer_expired, tx_packet, tx_done, timer_cb, set_enabled,
}
use linux_cc2520_driver.Lpl.Session.{completed, run, resent}

-- If LPL is switched off before a packet's completion and on again after it, the completion is
-- passed up but the layer keeps its state, also when the timer runs out in between: it refuses the
-- next packet.
pub lpl_off_strands :
    (l : Lpl) (status : ℕ) (buf : Buf) (len : ℕ)
    → l.lpl_state ≢ idle
    → (off : Lpl) × (late : Lpl) × (tx_done (set_enabled l false) status
        ≡ ok (off, top_tx_done status ∷ []))
      × (timer_cb off ≡ ok (late, []))
      × (tx_packet (set_enabled late true) buf len
          ≡ ok (set_enabled late true, top_tx_done 255 ∷ []))
unfolding tx_packet tx_done timer_cb set_enabled
lpl_off_strands l status buf len busy = (
  record l { lpl_enabled = false },
  record l { lpl_enabled = false; lpl_state = strand l.lpl_state },
  refl,
  ground arith,
  ground arith,
)
  where
    strand : State → State
    strand idle = idle
    strand tx = timer_expired
    strand timer_expired = timer_expired

module _ (l : Lpl) (on : l.lpl_enabled ≡ true) (st : l.lpl_state ≡ idle) where
  idle_resends :
      (s : ℕ)
      → requires_ack_wait l.cur_tx_buf ≡ false
      → tx_done l s ≡ ok (l, bottom_tx l.cur_tx_buf l.cur_tx_len ∷ [])
  unfolding tx_done
  idle_resends s a = ground arith

  run-idle :
      (ss : List ℕ)
      → requires_ack_wait l.cur_tx_buf ≡ false
      → run l (map completed ss) ≡ ok (l, resent l ss)
  unfolding run
  run-idle [] a = refl
  run-idle (s ∷ ss) a = rw (idle_resends s a, run-idle ss a)

-- If LPL is switched on while a packet sent without it is under way, with an older packet in the
-- buffer that asks for no acknowledgement, every completion sends that older packet again: no
-- number of completions ever reports the packet, and no timer was started to end this.
pub lpl_on_resends :
    (l : Lpl) (buf : Buf) (len : ℕ) (ss : List ℕ)
    → l.lpl_enabled ≡ false
    → l.lpl_state ≡ idle
    → requires_ack_wait l.cur_tx_buf ≡ false
    → (tx_packet l buf len ≡ ok (l, bottom_tx buf len ∷ []))
      × (run (set_enabled l true) (map completed ss) ≡ ok (set_enabled l true, resent l ss))
unfolding tx_packet set_enabled
lpl_on_resends l buf len ss off st a =
    (ground arith, run-idle (record l { lpl_enabled = true }) refl st ss a)

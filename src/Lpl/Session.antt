-- ===== src/Lpl/Session.antt =====
-- One packet from its first transmission to its completion, for every sequence of completions from
-- below and every moment at which the timer runs out.
use linux_cc2520_driver.Prelude.{
  ℕ, ◌≡◌, ◌≢◌, true, false, List, [], ◌∷◌, ◌++◌, map, ok, ◌>>=◌, length, replicate, arith,
}
use linux_cc2520_driver.Config.{tx_success}
use linux_cc2520_driver.Packet.{requires_ack_wait}
use linux_cc2520_driver.Layer.{Effect, bottom_tx, top_tx_done, cancel_timer, Handled}
use linux_cc2520_driver.Lpl.{Lpl, idle, tx, timer_expired, tx_done, timer_cb}

-- What reaches the layer while it sends.
pub data Input : Type 0 where
  completed : ℕ → Input
  timer : Input

abbrev pub handle : Lpl → Input → Handled Lpl
handle l (completed status) = tx_done l status
handle l timer = timer_cb l

unfoldable pub run : Lpl → List Input → Handled Lpl
run l [] = ok (l, [])
run l (i ∷ is) = do (l', now) ← handle l i; (l'', later) ← run l' is; ok (l'', now ++ later)

abbrev pub AllFailed : List ℕ → Type 0
AllFailed [] = Unit
AllFailed (s ∷ ss) = (s ≢ tx_success) × AllFailed ss

-- The packet in the buffer, sent once for each completion in a list.
abbrev pub resent : Lpl → List ℕ → List Effect
resent l ss = replicate (length ss) (bottom_tx l.cur_tx_buf l.cur_tx_len)

abbrev pub idle_again : Lpl → Lpl
idle_again l = record l { lpl_state = idle }

module _ (l : Lpl) (on : l.lpl_enabled ≡ true) where
  unacked_resends :
      (s : ℕ)
      → requires_ack_wait l.cur_tx_buf ≡ false
      → l.lpl_state ≢ timer_expired
      → tx_done l s ≡ ok (l, bottom_tx l.cur_tx_buf l.cur_tx_len ∷ [])
  unfolding tx_done
  unacked_resends s a st = ground arith

  acked_resends :
      (s : ℕ)
      → requires_ack_wait l.cur_tx_buf ≡ true
      → l.lpl_state ≢ timer_expired
      → s ≢ tx_success
      → tx_done l s ≡ ok (l, bottom_tx l.cur_tx_buf l.cur_tx_len ∷ [])
  unfolding tx_done
  acked_resends s a st ne = ground arith

  run-resends_unacked :
      (ss : List ℕ) (is : List Input) (l' : Lpl) (es : List Effect)
      → requires_ack_wait l.cur_tx_buf ≡ false
      → l.lpl_state ≢ timer_expired
      → run l is ≡ ok (l', es)
      → run l (map completed ss ++ is) ≡ ok (l', resent l ss ++ es)
  unfolding run
  run-resends_unacked [] is l' es a st e = e
  run-resends_unacked (s ∷ ss) is l' es a st e =
      rw (unacked_resends s a st, run-resends_unacked ss is l' es a st e)

  run-resends_acked :
      (ss : List ℕ) (is : List Input) (l' : Lpl) (es : List Effect)
      → requires_ack_wait l.cur_tx_buf ≡ true
      → l.lpl_state ≢ timer_expired
      → AllFailed ss
      → run l is ≡ ok (l', es)
      → run l (map completed ss ++ is) ≡ ok (l', resent l ss ++ es)
  unfolding run
  run-resends_acked [] is l' es a st f e = e
  run-resends_acked (s ∷ ss) is l' es a st f e =
      rw (acked_resends s a st f.0, run-resends_acked ss is l' es a st f.1 e)

  last_unacked :
      (s : ℕ)
      → requires_ack_wait l.cur_tx_buf ≡ false
      → l.lpl_state ≡ tx
      → run l (timer ∷ completed s ∷ []) ≡ ok (idle_again l, top_tx_done tx_success ∷ [])
  unfolding run timer_cb tx_done
  last_unacked s a st = ground arith

  last_acked :
      requires_ack_wait l.cur_tx_buf ≡ true
      → l.lpl_state ≡ tx
      → run l (completed tx_success ∷ [])
        ≡ ok (idle_again l, cancel_timer ∷ top_tx_done tx_success ∷ [])
  unfolding run tx_done
  last_acked a st = ground arith

  last_failed :
      (s : ℕ)
      → requires_ack_wait l.cur_tx_buf ≡ true
      → l.lpl_state ≡ tx
      → s ≢ tx_success
      → run l (timer ∷ completed s ∷ []) ≡ ok (idle_again l, top_tx_done 252 ∷ [])
  unfolding run timer_cb tx_done
  last_failed s a st ne = ground arith

  -- A packet that asks for no acknowledgement is sent again after every completion, whatever its
  -- status; the first completion after the timer has run out reports success once and makes the
  -- layer idle.
  pub run-unacked :
      (ss : List ℕ) (s : ℕ)
      → requires_ack_wait l.cur_tx_buf ≡ false
      → l.lpl_state ≡ tx
      → run l (map completed ss ++ (timer ∷ completed s ∷ []))
        ≡ ok (idle_again l, resent l ss ++ (top_tx_done tx_success ∷ []))
  run-unacked ss s a st = run-resends_unacked ss _ _ _ a (λ e. cc) (last_unacked s a st)

  -- A packet that asks for an acknowledgement is sent again after every failure; the first success
  -- before the timer has run out cancels the timer, reports success once and makes the layer idle.
  pub run-acked :
      (ss : List ℕ)
      → requires_ack_wait l.cur_tx_buf ≡ true
      → l.lpl_state ≡ tx
      → AllFailed ss
      → run l (map completed ss ++ (completed tx_success ∷ []))
        ≡ ok (idle_again l, resent l ss ++ (cancel_timer ∷ top_tx_done tx_success ∷ []))
  run-acked ss a st f = run-resends_acked ss _ _ _ a (λ e. cc) f (last_acked a st)

  -- If it only fails, the first failure after the timer has run out reports -CC2520_TX_FAILED once
  -- and makes the layer idle.
  pub run-failed :
      (ss : List ℕ) (s : ℕ)
      → requires_ack_wait l.cur_tx_buf ≡ true
      → l.lpl_state ≡ tx
      → AllFailed ss
      → s ≢ tx_success
      → run l (map completed ss ++ (timer ∷ completed s ∷ []))
        ≡ ok (idle_again l, resent l ss ++ (top_tx_done 252 ∷ []))
  run-failed ss s a st f ne = run-resends_acked ss _ _ _ a (λ e. cc) f (last_failed s a st ne)

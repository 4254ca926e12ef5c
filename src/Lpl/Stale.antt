-- ===== src/Lpl/Stale.antt =====
-- lpl.c: the timer of a packet that has ended before it was started.
use linux_cc2520_driver.Prelude.{
  ℕ, ◌≡◌, ◌≢◌, refl, true, [], ◌∷◌, Buf, ok, memcpy, if◌then◌else◌, arith,
}
use linux_cc2520_driver.Config.{tx_success, tx_failed, neg_u8}
use linux_cc2520_driver.Packet.{requires_ack_wait}
use linux_cc2520_driver.Layer.{bottom_tx, top_tx_done, cancel_timer}
use linux_cc2520_driver.Ledger.{World, sent}
use linux_cc2520_driver.Lpl.{
  Lpl, idle, tx, timer_expired, init, tx_calls, tx_starts, tx_done, timer_cb,
}
use linux_cc2520_driver.Lpl.World.{send, arm, fire, finish, Reach, here, next, start}

-- The layer with a packet.
abbrev holding : Buf → Buf → ℕ → Lpl
unfolding init
holding fresh buf len = record (init fresh) { cur_tx_buf = buf; cur_tx_len = len; lpl_state = tx }

module _ (fresh first second p q : Buf) (m n : ℕ) (copy_p : memcpy fresh first m ≡ ok p)
    (asks : requires_ack_wait p ≡ true) (copy_q : memcpy p second n ≡ ok q) where
  -- The first packet is acknowledged while `cc2520_lpl_tx` has yet to start its timer; the second is
  -- handed down; then the timer of the first runs out.
  run_out :
      (w : World Lpl) × Reach (start fresh) w true
      × (w.ledger.starting ≡ true)
      × (sent w.ledger ≡ 2)
      × (w.layer ≡ record (holding fresh q n) { lpl_state = timer_expired })
  unfolding init tx_calls tx_starts tx_done timer_cb
  run_out = (
    _,
    next
        (next
          (next
            (next
              (next here
                (send first m (holding fresh p m) (bottom_tx p m ∷ []) true refl (rw copy_p) refl))
              (finish tx_success (record (holding fresh p m) { lpl_state = idle })
                (cancel_timer ∷ top_tx_done tx_success ∷ []) (omega arith) (rw asks) refl))
            (arm refl refl))
          (send second n (holding fresh q n) (bottom_tx q n ∷ []) true refl (rw copy_q) refl))
        (fire (record (holding fresh q n) { lpl_state = timer_expired }) [] refl refl refl),
    refl,
    refl,
    refl,
  )

  -- If a packet that asks for an acknowledgement gets it before `cc2520_lpl_tx` has started its timer,
  -- that timer is started all the same, and the next packet may lose its listening period to it: after
  -- one transmission of each, before the second packet's own timer is started, any status of the second
  -- other than success makes the layer idle without sending it again; the packet is reported as failed
  -- if it asks for an acknowledgement, and as sent if it does not.
  pub stale_timer :
      (status : ℕ)
      → status ≢ tx_success
      → (w : World Lpl) × Reach (start fresh) w true
        × (w.ledger.starting ≡ true)
        × (sent w.ledger ≡ 2)
        × (w.layer.cur_tx_buf ≡ q)
        × (tx_done w.layer status
            ≡ ok (
              record w.layer { lpl_state = idle },
              top_tx_done (if requires_ack_wait q then neg_u8 tx_failed else tx_success) ∷ [],
            ))
  unfolding tx_done init
  stale_timer status failed =
      let (w, r, starting, twice, layer) = run_out in
      (w, r, starting, twice, rw layer refl, rw layer (ground (arith, failed)))

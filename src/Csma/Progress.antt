-- ===== src/Csma/Progress.antt =====
-- The handlers return, and what they return on each branch.
use linux_cc2520_driver.Prelude.{
  ℕ, ◌^◌, ◌≤◌, ◌<◌, ◌≡◌, refl, true, false, [], ◌∷◌, ◌++◌, Buf, ok, length, take, drop, memcpy,
  memcpy-ok, length-copy, arith,
}
use linux_cc2520_driver.Config.{pkt_buff_size}
use linux_cc2520_driver.Layer.{top_tx_done, start_timer, forward_timer, queue_work, us_to_ns}
use linux_cc2520_driver.Csma.{Csma, idle, tx, cong, get_backoff, tx_packet, timer_cb}
use linux_cc2520_driver.Csma.Backoff.{get_backoff-bounds}

-- Bounds that `rand_num % span` can be computed for, and a buffer of the allocated size.
pub record IsConfigured (c : Csma) : Type 0 where
  pub init_room : c.backoff_min < c.backoff_max_init
  pub cong_room : c.backoff_min < c.backoff_max_cong
  pub init_small : c.backoff_max_init < 2 ^ 31
  pub cong_small : c.backoff_max_cong < 2 ^ 31
  pub buffer : length c.cur_tx_buf ≡ pkt_buff_size

-- The variables with a packet taken.
abbrev pub loaded : Csma → Buf → ℕ → Csma
loaded c buf len = record c {
  csma_state = tx;
  cur_tx_buf = take len buf ++ drop len c.cur_tx_buf;
  cur_tx_len = len;
}

tx_packet-loaded :
    (c : Csma) (buf : Buf) (len rand_num b : ℕ)
    → c.csma_enabled ≡ true
    → c.csma_state ≡ idle
    → memcpy c.cur_tx_buf buf len ≡ ok (take len buf ++ drop len c.cur_tx_buf)
    → get_backoff c.backoff_min c.backoff_max_init rand_num ≡ ok b
    → tx_packet c buf len rand_num ≡ ok (loaded c buf len, start_timer (us_to_ns b) ∷ [])
unfolding tx_packet
tx_packet-loaded c buf len rand_num b en st m g = ground arith

-- An idle, enabled layer takes a packet of at most 127 bytes: it copies it, starts the timer with a
-- backoff in [min, init), and stays configured.
pub csma_starts :
    (c : Csma) (buf : Buf) (len rand_num : ℕ)
    → IsConfigured c
    → c.csma_enabled ≡ true
    → c.csma_state ≡ idle
    → len ≤ pkt_buff_size
    → len ≤ length buf
    → (b : ℕ) × (tx_packet c buf len rand_num
        ≡ ok (loaded c buf len, start_timer (us_to_ns b) ∷ []))
      × (c.backoff_min ≤ b)
      × (b < c.backoff_max_init)
      × IsConfigured (loaded c buf len)
csma_starts c buf len rand_num v en st small have =
    let (b, e, lo, hi) =
      get_backoff-bounds c.backoff_min c.backoff_max_init rand_num v.init_room v.init_small in
    let fits : len ≤ length c.cur_tx_buf = omega (arith, v.buffer) in
    (
      b,
      tx_packet-loaded c buf len rand_num b en st (memcpy-ok c.cur_tx_buf buf len fits have) e,
      lo,
      hi,
      omega (arith, v, length-copy c.cur_tx_buf buf len fits have),
    )

timer_cb-cong :
    (c : Csma) (rand_num b : ℕ)
    → c.csma_state ≡ tx
    → get_backoff c.backoff_min c.backoff_max_cong rand_num ≡ ok b
    → timer_cb c false rand_num
      ≡ ok (record c { csma_state = cong }, forward_timer (us_to_ns b) ∷ [])
unfolding timer_cb
timer_cb-cong c rand_num b st g = ground arith

-- The channel is sensed at most twice for a packet. Clear at the first sensing: the work is queued
-- and nothing else changes. Busy: the timer is started anew with a backoff in [min, cong), and the
-- second sensing queues the work or gives the packet up with -CC2520_TX_BUSY and goes idle.
pub csma_senses_twice :
    (c : Csma) (rand_num again : ℕ)
    → IsConfigured c
    → c.csma_state ≡ tx
    → (timer_cb c true rand_num ≡ ok (c, queue_work ∷ []))
      × ((b : ℕ) × (timer_cb c false rand_num
            ≡ ok (record c { csma_state = cong }, forward_timer (us_to_ns b) ∷ []))
          × (c.backoff_min ≤ b)
          × (b < c.backoff_max_cong))
      × (timer_cb (record c { csma_state = cong }) true again
          ≡ ok (record c { csma_state = cong }, queue_work ∷ []))
      × (timer_cb (record c { csma_state = cong }) false again
          ≡ ok (record c { csma_state = idle }, top_tx_done 255 ∷ []))
unfolding timer_cb
csma_senses_twice c rand_num again v st =
    let (b, e, lo, hi) =
      get_backoff-bounds c.backoff_min c.backoff_max_cong rand_num v.cong_room v.cong_small in
    (refl, (b, timer_cb-cong c rand_num b st e, lo, hi), refl, refl)

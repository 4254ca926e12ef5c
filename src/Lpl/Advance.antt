-- ===== src/Lpl/Advance.antt =====
-- The steps that run what waits for the layer, its buffer, and how far it is from rest.
use linux_cc2520_driver.Prelude.{
  ℕ, ◌+◌, ◌*◌, ◌≤◌, ◌<◌, ◌≡◌, refl, Bool, true, false, not, none, some, Buf, length, length-copy,
  memcpy, memcpy-ok, is_ok-ok, arith,
}
use linux_cc2520_driver.Config.{pkt_buff_size}
use linux_cc2520_driver.Ledger.{World, asked, called, fired, answered, bit}
use linux_cc2520_driver.Parcels.{parcels, inputs, Fits, AllFit, post_all-statuses}
use linux_cc2520_driver.Lpl.{
  Lpl, tx_calls, tx_starts, tx_done, rx_done, timer_cb, set_listen_length, set_wakeup_interval,
}
use linux_cc2520_driver.Lpl.World.{
  Step, settle, send, arm, fire, finish, receive, configure_window, configure_interval, is_running,
}
use linux_cc2520_driver.Lpl.Completion.{Inv}
use linux_cc2520_driver.Lpl.Payload.{input, effects}

-- Completions from below that a step runs.
abbrev pub answers : {w u : World Lpl} → Step w u → ℕ
answers (finish status l es g e eu) = 1
answers _ = 0

pub Step-answers :
    {w u : World Lpl} (st : Step w u)
    → (u.ledger.answers ≡ w.ledger.answers + answers st) × (w.ledger.completed ≤ u.ledger.completed)
unfolding tx_starts
Step-answers {w} (send buf len l es b g e eu) =
    ground (arith, post_all-statuses es (called b (asked w.ledger)))
Step-answers (arm g eu) = ground arith
Step-answers {w} (fire l es g e eu) = ground (arith, post_all-statuses es (fired w.ledger))
Step-answers {w} (finish status l es g e eu) =
    ground (arith, post_all-statuses es (answered w.ledger))
Step-answers {w} (receive buf len l es e eu) = ground (arith, post_all-statuses es w.ledger)
Step-answers (configure_window b eu) = ground arith
Step-answers (configure_interval b eu) = ground arith

pub record IsSized (l : Lpl) : Type 0 where
  pub buffer : length l.cur_tx_buf ≡ pkt_buff_size
  pub packet : l.cur_tx_len ≤ pkt_buff_size

pub Step-IsSized :
    {w u : World Lpl} (st : Step w u)
    → Inv w
    → IsSized w.layer
    → IsSized u.layer × AllFit (parcels (effects st))
unfolding tx_calls tx_starts timer_cb tx_done rx_done set_listen_length set_wakeup_interval memcpy
Step-IsSized {w} (send buf len l es b g e eu) i v =
    ground (arith, length-copy w.layer.cur_tx_buf buf len)
Step-IsSized (arm g eu) i v = ground arith
Step-IsSized (fire l es g e eu) i v = ground arith
Step-IsSized (finish status l es g e eu) i v = ground arith
Step-IsSized (receive buf len l es e eu) i v = ground arith
Step-IsSized (configure_window b eu) i v = ground arith
Step-IsSized (configure_interval b eu) i v = ground arith

-- The step brings the layer's packet nearer to its completion: a call that waits, the end of the
-- period, the start of its timer, or a completion after the period.
abbrev pub is_progress : {w u : World Lpl} → Step w u → Bool
is_progress (send buf len l es b g e eu) = true
is_progress (arm g eu) = true
is_progress (fire l es g e eu) = true
is_progress {w} (finish status l es g e eu) = not (is_running w.layer.lpl_state)
is_progress _ = false

-- How far the layer is from rest.
abbrev pub cost : World Lpl → ℕ
cost w = bit w.ledger.armed + 2 * bit w.ledger.starting + w.ledger.sending

pub cost-load : (w : World Lpl) → Inv w → cost w ≤ 2 + 2 * w.ledger.sending
cost-load w i = ground arith

pub Step-cost :
    {w u : World Lpl} (st : Step w u)
    → Inv w
    → is_progress st ≡ true
    → cost u + u.ledger.completed + 13 * length (parcels (effects st)) + 1
      ≤ cost w + w.ledger.completed + 17 * inputs (input st) + answers st
unfolding tx_calls tx_starts timer_cb tx_done rx_done set_listen_length set_wakeup_interval
Step-cost (send buf len l es b g e eu) i p = ground arith
Step-cost (arm g eu) i p = ground arith
Step-cost (fire l es g e eu) i p = ground arith
Step-cost (finish status l es g e eu) i p = ground arith
Step-cost (receive buf len l es e eu) i p = absurd (ground (arith, p))
Step-cost (configure_window b eu) i p = absurd (ground (arith, p))
Step-cost (configure_interval b eu) i p = absurd (ground (arith, p))

pub send_can :
    (w : World Lpl) (buf : Buf) (len : ℕ)
    → w.ledger.starting ≡ false
    → IsSized w.layer
    → Fits (buf, len)
    → (u : World Lpl) × (st : Step w u) × (input st ≡ some (buf, len))
      × (answers st ≡ 0)
      × (is_progress st ≡ true)
unfolding tx_calls
send_can w buf len g v f =
    let (x, e) =
      is_ok-ok (tx_calls w.layer buf len) (ground (arith, memcpy-ok w.layer.cur_tx_buf buf len)) in
    (
      settle (called x.2 (asked w.ledger)) x.0 x.1,
      send buf len x.0 x.1 x.2 g e refl,
      refl,
      refl,
      refl,
    )

pub arm_can :
    (w : World Lpl)
    → w.ledger.starting ≡ true
    → (u : World Lpl) × (st : Step w u) × (input st ≡ none)
      × (answers st ≡ 0)
      × (is_progress st ≡ true)
arm_can w g =
    (settle (called false w.ledger) w.layer (tx_starts w.layer), arm g refl, refl, refl, refl)

pub finish_can :
    (w : World Lpl) (status : ℕ)
    → is_running w.layer.lpl_state ≡ false
    → 0 < w.ledger.sending
    → (u : World Lpl) × (st : Step w u) × (input st ≡ none)
      × (answers st ≡ 1)
      × (is_progress st ≡ true)
unfolding tx_done
finish_can w status d g =
    let (x, e) = is_ok-ok (tx_done w.layer status) (ground arith) in
    (settle (answered w.ledger) x.0 x.1, finish status x.0 x.1 g e refl, refl, refl, rw d refl)

pub fire_can :
    (w : World Lpl)
    → w.ledger.armed ≡ true
    → (u : World Lpl) × (st : Step w u) × (input st ≡ none)
      × (answers st ≡ 0)
      × (is_progress st ≡ true)
unfolding timer_cb
fire_can w g = (_, fire _ _ g refl refl, refl, refl, refl)

-- ===== src/Csma/Advance.antt =====
-- The steps that run what waits for the layer, its buffer, and how far it is from rest.
use linux_cc2520_driver.Prelude.{
  ℕ, ◌+◌, ◌*◌, ◌≤◌, ◌<◌, ◌≡◌, refl, Bool, true, false, none, some, [], ◌∷◌, Buf, length,
  length-copy, memcpy, is_ok-ok, arith,
}
use linux_cc2520_driver.Config.{pkt_buff_size}
use linux_cc2520_driver.Layer.{bottom_tx, start_timer, queue_work, us_to_ns}
use linux_cc2520_driver.Ledger.{World, asked, fired, dequeued, answered, bit}
use linux_cc2520_driver.Parcels.{parcels, inputs, Fits, AllFit, post_all-statuses}
use linux_cc2520_driver.Csma.{
  Csma, idle, tx_packet, timer_cb, wq, tx_done, rx_done, set_min_backoff, set_init_backoff,
  set_cong_backoff,
}
use linux_cc2520_driver.Csma.World.{
  Step, settle, send, fire, work, finish, receive, configure_min, configure_init, configure_cong,
}
use linux_cc2520_driver.Csma.Completion.{Inv}
use linux_cc2520_driver.Csma.Progress.{IsConfigured, loaded, csma_starts}
use linux_cc2520_driver.Csma.Payload.{input, effects}

-- Completions from below that a step runs.
abbrev pub answers : {w u : World Csma} → Step w u → ℕ
answers (finish status l es g e eu) = 1
answers _ = 0

pub Step-answers :
    {w u : World Csma} (st : Step w u)
    → (u.ledger.answers ≡ w.ledger.answers + answers st) × (w.ledger.completed ≤ u.ledger.completed)
Step-answers {w} (send buf len rand_num l es e eu) =
    ground (arith, post_all-statuses es (asked w.ledger))
Step-answers {w} (fire clear rand_num l es g e eu) =
    ground (arith, post_all-statuses es (fired w.ledger))
Step-answers {w} (work l es g e eu) = ground (arith, post_all-statuses es (dequeued w.ledger))
Step-answers {w} (finish status l es g e eu) =
    ground (arith, post_all-statuses es (answered w.ledger))
Step-answers {w} (receive buf len l es e eu) = ground (arith, post_all-statuses es w.ledger)
Step-answers (configure_min b eu) = ground arith
Step-answers (configure_init b eu) = ground arith
Step-answers (configure_cong b eu) = ground arith

pub record IsSized (l : Csma) : Type 0 where
  pub buffer : length l.cur_tx_buf ≡ pkt_buff_size
  pub packet : l.cur_tx_len ≤ pkt_buff_size

pub Step-IsSized :
    {w u : World Csma} (st : Step w u)
    → Inv w
    → IsSized w.layer
    → IsSized u.layer × AllFit (parcels (effects st))
unfolding tx_packet timer_cb tx_done rx_done wq set_min_backoff set_init_backoff set_cong_backoff
    memcpy
Step-IsSized {w} (send buf len rand_num l es e eu) i v =
    ground (arith, length-copy w.layer.cur_tx_buf buf len)
Step-IsSized (fire clear rand_num l es g e eu) i v = ground arith
Step-IsSized (work l es g e eu) i v = ground arith
Step-IsSized (finish status l es g e eu) i v = ground arith
Step-IsSized (receive buf len l es e eu) i v = ground arith
Step-IsSized (configure_min b eu) i v = ground arith
Step-IsSized (configure_init b eu) i v = ground arith
Step-IsSized (configure_cong b eu) i v = ground arith

-- The step brings the layer's packet nearer to its completion: a call, a completion or work that
-- waits, or the timer that finds the channel clear.
abbrev pub is_progress : {w u : World Csma} → Step w u → Bool
is_progress (send buf len rand_num l es e eu) = true
is_progress (fire clear rand_num l es g e eu) = clear
is_progress (work l es g e eu) = true
is_progress (finish status l es g e eu) = true
is_progress _ = false

-- How far the layer is from rest.
abbrev pub cost : World Csma → ℕ
cost w = 12 * bit w.ledger.armed + 11 * bit w.ledger.queued + w.ledger.sending

pub Step-cost :
    {w u : World Csma} (st : Step w u)
    → Inv w
    → is_progress st ≡ true
    → cost u + u.ledger.completed + 9 * length (parcels (effects st)) + 1
      ≤ cost w + w.ledger.completed + 13 * inputs (input st) + answers st
unfolding tx_packet timer_cb tx_done rx_done wq
Step-cost (send buf len rand_num l es e eu) i p = ground arith
Step-cost (fire clear rand_num l es g e eu) i p = ground (arith, p)
Step-cost (work l es g e eu) i p = ground arith
Step-cost (finish status l es g e eu) i p = ground arith
Step-cost (receive buf len l es e eu) i p = absurd (ground (arith, p))
Step-cost (configure_min b eu) i p = absurd (ground (arith, p))
Step-cost (configure_init b eu) i p = absurd (ground (arith, p))
Step-cost (configure_cong b eu) i p = absurd (ground (arith, p))

-- The bounds stay as they are.
pub Step-IsConfigured :
    {w u : World Csma} (st : Step w u)
    → Inv w
    → is_progress st ≡ true
    → IsConfigured w.layer
    → IsConfigured u.layer
unfolding tx_packet timer_cb tx_done rx_done wq memcpy
Step-IsConfigured {w} (send buf len rand_num l es e eu) i p v =
    ground (arith, length-copy w.layer.cur_tx_buf buf len)
Step-IsConfigured (fire clear rand_num l es g e eu) i p v = ground arith
Step-IsConfigured (work l es g e eu) i p v = ground arith
Step-IsConfigured (finish status l es g e eu) i p v = ground arith
Step-IsConfigured (receive buf len l es e eu) i p v = absurd (ground (arith, p))
Step-IsConfigured (configure_min b eu) i p v = absurd (ground (arith, p))
Step-IsConfigured (configure_init b eu) i p v = absurd (ground (arith, p))
Step-IsConfigured (configure_cong b eu) i p v = absurd (ground (arith, p))

pub send_can :
    (w : World Csma) (buf : Buf) (len : ℕ)
    → Inv w
    → w.layer.csma_state ≡ idle
    → IsConfigured w.layer
    → Fits (buf, len)
    → (u : World Csma) × (st : Step w u) × (input st ≡ some (buf, len))
      × (answers st ≡ 0)
      × (is_progress st ≡ true)
send_can w buf len i free v f =
    let (b, e, _, _, _) = csma_starts w.layer buf len 0 v i.enabled free f.1 f.0 in
    (
      settle (asked w.ledger) (loaded w.layer buf len) (start_timer (us_to_ns b) ∷ []),
      send buf len 0 (loaded w.layer buf len) (start_timer (us_to_ns b) ∷ []) e refl,
      refl,
      refl,
      refl,
    )

-- The backoff timer may fire with the channel clear.
pub fire_can :
    (w : World Csma)
    → w.ledger.armed ≡ true
    → (u : World Csma) × (st : Step w u) × (input st ≡ none)
      × (answers st ≡ 0)
      × (is_progress st ≡ true)
unfolding timer_cb
fire_can w g = (_, fire true 0 w.layer (queue_work ∷ []) g refl refl, refl, refl, refl)

pub work_can :
    (w : World Csma)
    → w.ledger.queued ≡ true
    → (u : World Csma) × (st : Step w u) × (input st ≡ none)
      × (answers st ≡ 0)
      × (is_progress st ≡ true)
unfolding wq
work_can w g = (
  _,
  work w.layer (bottom_tx w.layer.cur_tx_buf w.layer.cur_tx_len ∷ []) g refl refl,
  refl,
  refl,
  refl,
)

pub finish_can :
    (w : World Csma) (status : ℕ)
    → 0 < w.ledger.sending
    → (u : World Csma) × (st : Step w u) × (input st ≡ none)
      × (answers st ≡ 1)
      × (is_progress st ≡ true)
unfolding tx_done
finish_can w status g =
    let (x, e) = is_ok-ok (tx_done w.layer status) (ground arith) in
    (settle (answered w.ledger) x.0 x.1, finish status x.0 x.1 g e refl, refl, refl, refl)

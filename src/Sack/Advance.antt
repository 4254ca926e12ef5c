-- ===== src/Sack/Advance.antt =====
-- The steps that run what waits for the layer, its buffer, and how far it is from rest.
use linux_cc2520_driver.Prelude.{
  ℕ, ◌+◌, ◌*◌, ◌≤◌, ◌<◌, ◌≡◌, refl, Bool, true, false, none, some, Buf, length, length-copy, take,
  drop, ◌++◌, memcpy, memcpy-ok, is_ok-ok, arith,
}
use linux_cc2520_driver.Config.{pkt_buff_size}
use linux_cc2520_driver.Packet.Ack.{create_ack-is_ack}
use linux_cc2520_driver.Ledger.{World, asked, fired, answered}
use linux_cc2520_driver.Parcels.{parcels, inputs, Fits, AllFit, post_all-statuses}
use linux_cc2520_driver.Sack.{Sack, idle, tx_packet, tx_done, rx_done, timer_cb, set_timeout}
use linux_cc2520_driver.Sack.World.{Step, settle, send, fire, finish, receive, configure}
use linux_cc2520_driver.Sack.Completion.{Inv, load}
use linux_cc2520_driver.Sack.Payload.{input, effects}

-- Completions from below that a step runs.
abbrev pub answers : {w u : World Sack} → Step w u → ℕ
answers (finish status l es g e eu) = 1
answers _ = 0

pub Step-answers :
    {w u : World Sack} (st : Step w u)
    → (u.ledger.answers ≡ w.ledger.answers + answers st) × (w.ledger.completed ≤ u.ledger.completed)
Step-answers {w} (send buf len l es e eu) = ground (arith, post_all-statuses es (asked w.ledger))
Step-answers {w} (fire l es g e eu) = ground (arith, post_all-statuses es (fired w.ledger))
Step-answers {w} (finish status l es g e eu) =
    ground (arith, post_all-statuses es (answered w.ledger))
Step-answers {w} (receive buf len l es e eu) = ground (arith, post_all-statuses es w.ledger)
Step-answers (configure b eu) = ground arith

pub record IsSized (l : Sack) : Type 0 where
  pub buffer : length l.cur_tx_buf ≡ pkt_buff_size
  pub ack : length l.ack_buf ≡ 6

pub Step-IsSized :
    {w u : World Sack} (st : Step w u)
    → Inv w
    → IsSized w.layer
    → IsSized u.layer × AllFit (parcels (effects st))
unfolding tx_packet timer_cb tx_done rx_done set_timeout memcpy
Step-IsSized {w} (send buf len l es e eu) i v =
    ground (arith, length-copy w.layer.cur_tx_buf buf len)
Step-IsSized (fire l es g e eu) i v = ground arith
Step-IsSized (finish status l es g e eu) i v = ground arith
Step-IsSized {w} (receive buf len l es e eu) i v = ground (
  arith,
  create_ack-is_ack (take len buf ++ drop len w.layer.cur_rx_buf) w.layer.ack_buf
      (omega (arith, v.ack)),
)
Step-IsSized (configure b eu) i v = ground arith

-- The step runs a call, a completion or the timer of an awaited acknowledgement.
abbrev pub is_progress : {w u : World Sack} → Step w u → Bool
is_progress (fire l es g e eu) = true
is_progress (send buf len l es e eu) = true
is_progress (finish status l es g e eu) = true
is_progress _ = false

-- How far the layer is from rest.
abbrev pub cost : World Sack → ℕ
cost w = 2 * load w.layer.sack_state

pub Step-cost :
    {w u : World Sack} (st : Step w u)
    → Inv w
    → is_progress st ≡ true
    → cost u + u.ledger.completed + 6 * length (parcels (effects st)) + 1
      ≤ cost w + w.ledger.completed + 9 * inputs (input st) + answers st
unfolding tx_packet timer_cb tx_done rx_done set_timeout
Step-cost (send buf len l es e eu) i p = ground arith
Step-cost (fire l es g e eu) i p = ground arith
Step-cost (finish status l es g e eu) i p = ground arith
Step-cost (receive buf len l es e eu) i p = absurd (ground (arith, p))
Step-cost (configure b eu) i p = absurd (ground (arith, p))

pub send_can :
    (w : World Sack) (buf : Buf) (len : ℕ)
    → Inv w
    → w.layer.sack_state ≡ idle
    → IsSized w.layer
    → Fits (buf, len)
    → (u : World Sack) × (st : Step w u) × (input st ≡ some (buf, len))
      × (answers st ≡ 0)
      × (is_progress st ≡ true)
unfolding tx_packet
send_can w buf len i free v f =
    let (x, e) =
      is_ok-ok (tx_packet w.layer buf len) (ground (arith, memcpy-ok w.layer.cur_tx_buf buf len)) in
    (settle (asked w.ledger) x.0 x.1, send buf len x.0 x.1 e refl, refl, refl, refl)

pub finish_can :
    (w : World Sack) (status : ℕ)
    → Inv w
    → 0 < w.ledger.sending
    → (u : World Sack) × (st : Step w u) × (input st ≡ none)
      × (answers st ≡ 1)
      × (is_progress st ≡ true)
unfolding tx_done
finish_can w status i g =
    let (x, e) = is_ok-ok (tx_done w.layer status) (ground arith) in
    (settle (answered w.ledger) x.0 x.1, finish status x.0 x.1 g e refl, refl, refl, refl)

pub fire_can :
    (w : World Sack)
    → Inv w
    → w.ledger.armed ≡ true
    → (u : World Sack) × (st : Step w u) × (input st ≡ none)
      × (answers st ≡ 0)
      × (is_progress st ≡ true)
unfolding timer_cb
fire_can w i g =
    let (x, e) = is_ok-ok (timer_cb w.layer) (ground arith) in
    (settle (fired w.ledger) x.0 x.1, fire x.0 x.1 g e refl, refl, refl, refl)

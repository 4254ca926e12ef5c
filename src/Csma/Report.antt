-- ===== src/Csma/Report.antt =====
-- The statuses that the layer is told and tells.
use linux_cc2520_driver.Prelude.{
  ℕ, ◌+◌, ◌≡◌, Bool, false, Option, none, some, List, [], length, arith,
}
use linux_cc2520_driver.Ledger.{World, asked, fired, dequeued, answered}
use linux_cc2520_driver.Parcels.{parcels, inputs, statuses, post_all-statuses}
use linux_cc2520_driver.Statuses.{heard, AllTrue, HeardTrue, AllZero, HeardZero}
use linux_cc2520_driver.Csma.{
  Csma, tx_packet, tx_enabled, timer_cb, timer_busy, wq, tx_done, rx_done,
}
use linux_cc2520_driver.Csma.Payload.{input, effects}
use linux_cc2520_driver.Csma.Completion.{Inv}
use linux_cc2520_driver.Csma.World.{
  Step, send, fire, work, finish, receive, configure_min, configure_init, configure_cong,
}

abbrev pub told : {w u : World Csma} → Step w u → Option ℕ
told (finish status c es g e eu) = some status
told _ = none

pub Step-told :
    {w u : World Csma} (st : Step w u)
    → (u.ledger.answers ≡ w.ledger.answers + heard (told st))
      × (u.ledger.completed ≡ w.ledger.completed + length (statuses (effects st)))
Step-told {w} (send buf len rand_num c es e eu) =
    ground (arith, post_all-statuses es (asked w.ledger))
Step-told {w} (fire clear rand_num c es g e eu) =
    ground (arith, post_all-statuses es (fired w.ledger))
Step-told {w} (work c es g e eu) = ground (arith, post_all-statuses es (dequeued w.ledger))
Step-told {w} (finish status c es g e eu) = ground (arith, post_all-statuses es (answered w.ledger))
Step-told {w} (receive buf len c es e eu) = ground (arith, post_all-statuses es w.ledger)
Step-told (configure_min b eu) = ground arith
Step-told (configure_init b eu) = ground arith
Step-told (configure_cong b eu) = ground arith

-- The layer reports success only where it is told of it.
pub Step-AllTrue :
    (packet : List ℕ) (acked : Bool) {w u : World Csma} (st : Step w u)
    → HeardTrue packet acked (told st)
    → AllTrue packet acked (statuses (effects st))
unfolding tx_packet tx_enabled timer_cb timer_busy tx_done rx_done wq
Step-AllTrue packet acked (send buf len rand_num c es e eu) i = ground arith
Step-AllTrue packet acked (fire clear rand_num c es g e eu) i = ground arith
Step-AllTrue packet acked (work c es g e eu) i = ground arith
Step-AllTrue packet acked (finish status c es g e eu) i = ground arith
Step-AllTrue packet acked (receive buf len c es e eu) i = ground arith
Step-AllTrue packet acked (configure_min b eu) i = tt
Step-AllTrue packet acked (configure_init b eu) i = tt
Step-AllTrue packet acked (configure_cong b eu) i = tt

-- A layer with no packet of its own passes the report up.
pub Step-AllZero :
    {w u : World Csma} (st : Step w u)
    → Inv w
    → w.ledger.armed ≡ false
    → w.ledger.queued ≡ false
    → inputs (input st) ≡ 0
    → HeardZero (told st)
    → AllZero (statuses (effects st))
      × (parcels (effects st) ≡ [])
      × (u.ledger.armed ≡ false)
      × (u.ledger.queued ≡ false)
unfolding tx_packet tx_enabled timer_cb timer_busy tx_done rx_done wq
Step-AllZero (send buf len rand_num c es e eu) v a q n z = absurd (omega (arith, n))
Step-AllZero (fire clear rand_num c es g e eu) v a q n z = absurd (ground (arith, a, g))
Step-AllZero (work c es g e eu) v a q n z = absurd (ground (arith, q, g))
Step-AllZero (finish status c es g e eu) v a q n z = ground arith
Step-AllZero (receive buf len c es e eu) v a q n z = ground arith
Step-AllZero (configure_min b eu) v a q n z = ground arith
Step-AllZero (configure_init b eu) v a q n z = ground arith
Step-AllZero (configure_cong b eu) v a q n z = ground arith

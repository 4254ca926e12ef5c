-- ===== src/Lpl/Report.antt =====
-- The statuses that the layer is told and tells.
use linux_cc2520_driver.Prelude.{
  ℕ, ◌+◌, ◌≡◌, ◌≤◌, refl, Bool, true, Option, none, some, List, [], length, arith,
}
use linux_cc2520_driver.Ledger.{World, asked, called, fired, answered}
use linux_cc2520_driver.Parcels.{parcels, inputs, statuses, post_all-statuses}
use linux_cc2520_driver.Statuses.{
  heard, needs_ack, AllTrue, AllReports, HeardTrue, AllZero, HeardZero, needs_ack-take,
}
use linux_cc2520_driver.Lpl.{
  Lpl, tx_calls, call_enabled, tx_starts, tx_done, done_enabled, rx_done, timer_cb,
}
use linux_cc2520_driver.Lpl.Completion.{Inv, load}
use linux_cc2520_driver.Lpl.Payload.{input, effects, Holds, Holds-busy}
use linux_cc2520_driver.Lpl.World.{
  Step, send, arm, fire, finish, receive, configure_window, configure_interval,
}

abbrev pub told : {w u : World Lpl} → Step w u → Option ℕ
told (finish status l es g e eu) = some status
told _ = none

pub Step-told :
    {w u : World Lpl} (st : Step w u)
    → (u.ledger.answers ≡ w.ledger.answers + heard (told st))
      × (u.ledger.completed ≡ w.ledger.completed + length (statuses (effects st)))
unfolding tx_starts
Step-told {w} (send buf len l es b g e eu) =
    ground (arith, post_all-statuses es (called b (asked w.ledger)))
Step-told (arm g eu) = ground arith
Step-told {w} (fire l es g e eu) = ground (arith, post_all-statuses es (fired w.ledger))
Step-told {w} (finish status l es g e eu) = ground (arith, post_all-statuses es (answered w.ledger))
Step-told {w} (receive buf len l es e eu) = ground (arith, post_all-statuses es w.ledger)
Step-told (configure_window b eu) = ground arith
Step-told (configure_interval b eu) = ground arith

-- Of a packet that asks for an acknowledgement the layer reports success only where it is told of it.
pub Step-AllTrue :
    (packet : List ℕ) (acked : Bool) {w u : World Lpl} (st : Step w u)
    → Inv w
    → Holds packet w.layer
    → HeardTrue packet acked (told st)
    → AllTrue packet acked (statuses (effects st))
unfolding tx_calls call_enabled tx_starts timer_cb tx_done done_enabled rx_done
Step-AllTrue packet acked (send buf len l es b g e eu) v h i = ground arith
Step-AllTrue packet acked (arm g eu) v h i = ground arith
Step-AllTrue packet acked (fire l es g e eu) v h i = ground arith
Step-AllTrue packet acked {w} (finish status l es g e eu) v h i =
    let same = Holds-busy packet w.layer (ground (arith, v)) h in
    ground (arith, needs_ack-take w.layer.cur_tx_len w.layer.cur_tx_buf packet same)
Step-AllTrue packet acked (receive buf len l es e eu) v h i = ground arith
Step-AllTrue packet acked (configure_window b eu) v h i = tt
Step-AllTrue packet acked (configure_interval b eu) v h i = tt

-- What the layer reports while it is asked for one packet at a time: success, or -CC2520_TX_FAILED.
pub Step-AllReports :
    {w u : World Lpl} (st : Step w u)
    → Inv w
    → load w.layer.lpl_state + inputs (input st) ≤ 1
    → AllReports (statuses (effects st))
unfolding tx_calls call_enabled tx_starts timer_cb tx_done done_enabled rx_done
Step-AllReports (send buf len l es b g e eu) v h = ground (arith, h)
Step-AllReports (arm g eu) v h = ground arith
Step-AllReports (fire l es g e eu) v h = ground arith
Step-AllReports (finish status l es g e eu) v h = ground arith
Step-AllReports (receive buf len l es e eu) v h = ground arith
Step-AllReports (configure_window b eu) v h = tt
Step-AllReports (configure_interval b eu) v h = tt

-- An acknowledged packet is reported, and not sent again.
pub Step-AllZero :
    (packet : List ℕ) {w u : World Lpl} (st : Step w u)
    → needs_ack packet ≡ true
    → Inv w
    → Holds packet w.layer
    → inputs (input st) ≡ 0
    → HeardZero (told st)
    → AllZero (statuses (effects st)) × (parcels (effects st) ≡ [])
unfolding tx_calls call_enabled tx_starts timer_cb tx_done done_enabled rx_done
Step-AllZero packet (send buf len l es b g e eu) a v h n z = absurd (omega (arith, n))
Step-AllZero packet (arm g eu) a v h n z = ground arith
Step-AllZero packet (fire l es g e eu) a v h n z = ground arith
Step-AllZero packet {w} (finish status l es g e eu) a v h n z =
    let same = Holds-busy packet w.layer (ground (arith, v)) h in
    ground (arith, a, needs_ack-take w.layer.cur_tx_len w.layer.cur_tx_buf packet same)
Step-AllZero packet (receive buf len l es e eu) a v h n z = ground arith
Step-AllZero packet (configure_window b eu) a v h n z = (tt, refl)
Step-AllZero packet (configure_interval b eu) a v h n z = (tt, refl)

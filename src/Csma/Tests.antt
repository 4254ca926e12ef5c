-- ===== src/Csma/Tests.antt =====
-- The layer on concrete packets, and the theorems at them.
use linux_cc2520_driver.Prelude.{
  ◌+◌, ◌≡◌, refl, true, [], ◌∷◌, Buf, ok, fault, memcpy, replicate, arith,
}
use linux_cc2520_driver.Layer.{top_tx_done}
use linux_cc2520_driver.Ledger.{World, waiting}
use linux_cc2520_driver.Csma.{
  tx_enabled, get_backoff, Csma, tx, init, get_backoff, tx_packet, timer_cb, wq,
}
use linux_cc2520_driver.Csma.World.{start, send, fire, work, Reach, here, next}
use linux_cc2520_driver.Csma.Completion.{load, csma_completion}
use linux_cc2520_driver.Csma.Progress.{IsConfigured, loaded}

abbrev fresh : Buf
fresh = replicate 127 0

abbrev packet : Buf
packet = 5 ∷ 0x41 ∷ 0x88 ∷ 7 ∷ []

abbrev quiet : Csma
unfolding init
quiet = init fresh

backoff_runs : get_backoff 320 4960 1000000 ≡ ok 2720
unfolding get_backoff
backoff_runs = refl

quiet-IsConfigured : IsConfigured quiet
unfolding init
quiet-IsConfigured = omega arith

abbrev under_way : Csma
unfolding init
under_way = loaded quiet packet 4

-- A busy layer refuses.
refused : tx_packet under_way packet 4 99 ≡ ok (under_way, top_tx_done 255 ∷ [])
unfolding init tx_packet tx_enabled
refused = refl

under_way-IsConfigured : IsConfigured under_way
unfolding init
under_way-IsConfigured = omega arith

abbrev equal_bounds : Csma
unfolding init
equal_bounds = record quiet { backoff_max_init = 320 }

divides_by_zero : tx_packet equal_bounds packet 4 99 ≡ fault
unfolding init tx_packet tx_enabled get_backoff memcpy
divides_by_zero = refl

-- A packet sent, the channel found clear, the packet handed down: accepted and not yet completed.
sent_world :
    (w : World Csma) × Reach (start fresh) w
    × (w.ledger.accepted ≡ 1)
    × (w.ledger.completed ≡ 0)
    × (w.layer.csma_state ≡ tx)
unfolding init tx_packet timer_cb wq get_backoff memcpy
sent_world = (
  _,
  next (next (next here (send packet 4 99 _ _ refl refl)) (fire true 0 _ _ refl refl refl))
      (work _ _ refl refl refl),
  refl,
  refl,
  refl,
)

csma_completion_example :
    (sent_world.0.ledger.accepted
      ≡ sent_world.0.ledger.completed + load sent_world.0.layer.csma_state)
    × (waiting sent_world.0.ledger ≡ load sent_world.0.layer.csma_state)
csma_completion_example = csma_completion fresh sent_world.1

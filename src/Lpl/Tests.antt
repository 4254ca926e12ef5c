-- ===== src/Lpl/Tests.antt =====
-- The layer on concrete packets, and the theorems at them.
use linux_cc2520_driver.Prelude.{
  ◌+◌, ◌≡◌, ◌⊎◌, refl, true, false, ◌&&◌, not, [], ◌∷◌, ◌++◌, Buf, ok, memcpy, replicate,
  if◌then◌else◌, arith,
}
use linux_cc2520_driver.Packet.{requires_ack_wait}
use linux_cc2520_driver.Layer.{bottom_tx, top_tx_done, start_timer}
use linux_cc2520_driver.Ledger.{World, sent}
use linux_cc2520_driver.Lpl.{
  Lpl, idle, call_enabled, init, tx_packet, tx_calls, tx_starts, tx_done, timer_ns,
}
use linux_cc2520_driver.Lpl.World.{start, send, arm, finish, Reach, here, next, is_running}
use linux_cc2520_driver.Lpl.Completion.{load, lpl_completion}
use linux_cc2520_driver.Lpl.Stale.{stale_timer}
use linux_cc2520_driver.Config.{tx_success, tx_failed, neg_u8}
use linux_cc2520_driver.Lpl.Start.{loaded}
use linux_cc2520_driver.Lpl.Session.{completed, timer, run, resent, idle_again, run-unacked}

abbrev fresh : Buf
fresh = replicate 127 0

-- A broadcast, and a packet that asks for an acknowledgement.
abbrev broadcast : Buf
broadcast = 5 ∷ 0x41 ∷ 0x88 ∷ 7 ∷ []

abbrev unicast : Buf
unicast = 5 ∷ 0x61 ∷ 0x88 ∷ 7 ∷ []

abbrev quiet : Lpl
unfolding init
quiet = init fresh

abbrev sending : Buf → Lpl
unfolding init
sending buf = loaded quiet buf 4

default_period : timer_ns quiet ≡ 522240000
unfolding timer_ns init
default_period = refl

started :
    tx_packet quiet broadcast 4
    ≡ ok (
      loaded quiet broadcast 4,
      bottom_tx (broadcast ++ replicate 123 0) 4 ∷ start_timer 522240000 ∷ [],
    )
unfolding init tx_packet call_enabled memcpy timer_ns
started = refl

refused :
    tx_packet (loaded quiet broadcast 4) unicast 4
    ≡ ok (loaded quiet broadcast 4, top_tx_done 255 ∷ [])
unfolding init tx_packet call_enabled
refused = refl

run-unacked_example :
    run (sending broadcast) (completed 0 ∷ completed 255 ∷ timer ∷ completed 0 ∷ [])
    ≡ ok (
      idle_again (sending broadcast),
      resent (sending broadcast) (0 ∷ 255 ∷ []) ++ (top_tx_done 0 ∷ []),
    )
unfolding init requires_ack_wait
run-unacked_example = run-unacked (sending broadcast) refl (0 ∷ 255 ∷ []) 0 refl refl

abbrev disabled : Lpl
unfolding init
disabled = record quiet { lpl_enabled = false }

-- A unicast that ends before its timer is started, and the timer started after it.
overtaken_world :
    (w : World Lpl) × Reach (start fresh) w true
    × (w.layer.lpl_state ≡ idle)
    × (w.ledger.armed ≡ true)
unfolding init tx_calls tx_starts tx_done memcpy requires_ack_wait
overtaken_world = (
  _,
  next
      (next (next here (send unicast 4 _ _ _ refl refl refl))
        (finish 0 _ _ (omega arith) refl refl))
      (arm refl refl),
  refl,
  refl,
)

lpl_completion_example :
    (overtaken_world.0.ledger.accepted
      ≡ overtaken_world.0.ledger.completed + load overtaken_world.0.layer.lpl_state)
    × (overtaken_world.0.ledger.sending ≡ load overtaken_world.0.layer.lpl_state)
    × ((is_running overtaken_world.0.layer.lpl_state ≡ false)
        ⊎ (overtaken_world.0.ledger.armed ≡ true)
        ⊎ (overtaken_world.0.ledger.starting ≡ true))
    × ((true ≡ true)
        ⊎ (overtaken_world.0.ledger.armed ≡ (
            is_running overtaken_world.0.layer.lpl_state && not overtaken_world.0.ledger.starting)))
lpl_completion_example = lpl_completion fresh overtaken_world.1

-- The next packet.
abbrev unicast_next : Buf
unicast_next = 5 ∷ 0x61 ∷ 0x88 ∷ 8 ∷ []

stale_timer_example :
    (w : World Lpl) × Reach (start fresh) w true
    × (w.ledger.starting ≡ true)
    × (sent w.ledger ≡ 2)
    × (w.layer.cur_tx_buf ≡ unicast_next ++ replicate 123 0)
    × (tx_done w.layer 253
        ≡ ok (
          record w.layer { lpl_state = idle },
          top_tx_done (
                if requires_ack_wait (unicast_next ++ replicate 123 0)
                then neg_u8 tx_failed
                else tx_success)
              ∷ [],
        ))
unfolding memcpy requires_ack_wait
stale_timer_example =
    stale_timer fresh unicast unicast_next (unicast ++ replicate 123 0)
      (unicast_next ++ replicate 123 0) 4 4 refl refl refl 253 (ground arith)

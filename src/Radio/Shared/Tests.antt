-- ===== src/Radio/Shared/Tests.antt =====
-- A packet whose message is under way, and the theorems at it.
use linux_cc2520_driver.Prelude.{◌≡◌, refl, false, some, List, [], ◌∷◌, Buf, ok, memcpy, replicate}
use linux_cc2520_driver.Radio.State.{Radio, RadioEffect, init, continue_tx}
use linux_cc2520_driver.Radio.Config.{start}
use linux_cc2520_driver.Radio.Tx.{tx_packet, tx_check}
use linux_cc2520_driver.Radio.RegisterMap
use linux_cc2520_driver.Radio.RegisterMap.{address}
use linux_cc2520_driver.Radio.TxWorld as Engine
use linux_cc2520_driver.Radio.Startup.{registers, start-registers}
use linux_cc2520_driver.Radio.Shared.{on_bus}
use linux_cc2520_driver.Radio.Shared.World.{Engaged, begin, Reach, here, next}
use linux_cc2520_driver.Radio.Shared.Owned.{Carried, shared_message}

abbrev large : Buf
large = replicate 256 0

abbrev small : Buf
small = replicate 127 0

abbrev packet : Buf
packet = 5 ∷ 0x61 ∷ 0x88 ∷ 7 ∷ []

written : (p : Engaged) × Reach (begin large large small small) p × (p.world.spi ≡ some continue_tx)
unfolding init tx_packet tx_check memcpy
written = (
  _,
  next (next here (Engine.Step.send packet 4 _ _ refl refl) refl)
      (Engine.Step.check false _ _ refl refl refl) refl,
  refl,
)

shared_message_example :
    (written.0.shared.complete ≡ some continue_tx)
    × Carried continue_tx written.0.world.radio (on_bus written.0.shared)
shared_message_example =
    shared_message large large small small refl refl written.1 continue_tx written.2

started : (r : Radio) × (es : List RadioEffect) × (start (init large small small) ≡ ok (r, es))
unfolding init start
started = (_, _, refl)

start-registers_example :
    registers (λ a. a) started.1 (λ a. 0) (address RegisterMap.mdmctrl0) ≡ 0x85
start-registers_example =
    start-registers (λ a. a) (λ a. 0) (init large small small) started.2 RegisterMap.mdmctrl0

-- ===== src/Device/Payload.antt =====
-- What a write hands down is the packet that the program has written.
use Prim.Native.Nat.{min}
use linux_cc2520_driver.Prelude.{
  ℕ, ◌+◌, ◌≡◌, ◌⊎◌, Option, none, some, List, [], Buf, length, take, memcpy, take-append, drop,
  arith,
}
use linux_cc2520_driver.Layer.{Effect}
use linux_cc2520_driver.Parcels.{parcels, AllHold}
use linux_cc2520_driver.Device.{Writing, waiting, tx_done, rx_done, write_begin, write_end}
use linux_cc2520_driver.Device.Exclusion.{Inv}
use linux_cc2520_driver.Device.World.{DeviceWorld, Step, begins, completes, ends, receives}

abbrev pub effects : {w u : DeviceWorld} → Step w u → List Effect
effects (begins nonblock interrupted user len d how es e eu) = es
effects _ = []

-- The packet under way after a step, for the one under way before it.
abbrev pub accepted_from : Option Buf → ℕ → Writing → List ℕ → List ℕ
accepted_from (some user) len (waiting n) packet = take (min len 128) user
accepted_from _ len how packet = packet

abbrev pub written : {w u : DeviceWorld} → Step w u → List ℕ → List ℕ
written (begins nonblock interrupted user len d how es e eu) packet =
    accepted_from user len how packet
written _ packet = packet

pub Step-written :
    (packet : List ℕ) {w u : DeviceWorld} (st : Step w u)
    → Inv w
    → AllHold (written st packet) (parcels (effects st))
      × ((written st packet ≡ packet) ⊎ (w.sending ≡ 0))
      × (u.sending + u.answers ≡ w.sending + w.answers + length (parcels (effects st)))
unfolding write_begin tx_done write_end rx_done memcpy
Step-written packet {w} (begins nonblock interrupted (some user) len d how es e eu) v =
    ground (arith, take-append (min len 128) user (drop (min len 128) w.device.tx_buf_c))
Step-written packet (begins nonblock interrupted none len d how es e eu) v = ground arith
Step-written packet (completes status g eu) v = ground arith
Step-written packet (ends n d r g e eu) v = ground arith
Step-written packet (receives buf len d e eu) v = ground arith

-- ===== src/Device/Advance.antt =====
-- The steps that run what waits for the device, and its buffer.
use Prim.Native.Nat.{min}
use linux_cc2520_driver.Prelude.{
  ℕ, ◌+◌, ◌<◌, ◌≡◌, refl, Bool, true, false, none, some, [], length, length-copy, memcpy, arith,
}
use linux_cc2520_driver.Config.{pkt_buff_size}
use linux_cc2520_driver.Parcels.{parcels, AllFit}
use linux_cc2520_driver.Device.{Device, tx_done, rx_done, write_begin, write_end}
use linux_cc2520_driver.Device.World.{DeviceWorld, Step, begins, completes, ends, receives}
use linux_cc2520_driver.Device.Payload.{effects}

abbrev pub answers : {w u : DeviceWorld} → Step w u → ℕ
answers (completes status g eu) = 1
answers _ = 0

pub Step-answers : {w u : DeviceWorld} (st : Step w u) → u.answers ≡ w.answers + answers st
unfolding write_begin tx_done write_end rx_done
Step-answers (begins nonblock interrupted user len d how es e eu) = ground arith
Step-answers (completes status g eu) = ground arith
Step-answers (ends n d r g e eu) = ground arith
Step-answers (receives buf len d e eu) = ground arith

abbrev pub IsSized : Device → Type 0
IsSized d = length d.tx_buf_c ≡ pkt_buff_size

pub Step-IsSized :
    {w u : DeviceWorld} (st : Step w u)
    → IsSized w.device
    → IsSized u.device × AllFit (parcels (effects st))
unfolding write_begin tx_done write_end rx_done memcpy
Step-IsSized {w} (begins nonblock interrupted (some user) len d how es e eu) v =
    ground (arith, length-copy w.device.tx_buf_c user (min len 128))
Step-IsSized (begins nonblock interrupted none len d how es e eu) v = ground arith
Step-IsSized (completes status g eu) v = ground arith
Step-IsSized (ends n d r g e eu) v = ground arith
Step-IsSized (receives buf len d e eu) v = ground arith

abbrev pub is_progress : {w u : DeviceWorld} → Step w u → Bool
is_progress (completes status g eu) = true
is_progress _ = false

pub completes_can :
    (w : DeviceWorld) (status : ℕ)
    → 0 < w.sending
    → (u : DeviceWorld) × (st : Step w u) × (answers st ≡ 1)
      × (parcels (effects st) ≡ [])
      × (is_progress st ≡ true)
completes_can w status g = (_, completes status g refl, refl, refl, refl)

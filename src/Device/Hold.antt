-- ===== src/Device/Hold.antt =====
-- What the device does while a write waits and no completion reaches it.
use linux_cc2520_driver.Prelude.{◌≡◌, arith}
use linux_cc2520_driver.Device.{tx_done, rx_done, write_begin, write_end}
use linux_cc2520_driver.Device.World.{DeviceWorld, Step, begins, completes, ends, receives}
use linux_cc2520_driver.Device.Exclusion.{Inv}

pub Step-holds :
    {w u : DeviceWorld} → Step w u → Inv w → w.sending ≡ 1 → u.answers ≡ w.answers → u.sending ≡ 1
unfolding write_begin write_end tx_done rx_done
Step-holds (begins nonblock interrupted user len d how es e eu) v s n = ground arith
Step-holds (completes status g eu) v s n = ground arith
Step-holds (ends n' d r g e eu) v s n = ground arith
Step-holds (receives buf len d e eu) v s n = ground arith

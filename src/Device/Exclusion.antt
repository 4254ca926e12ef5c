-- ===== src/Device/Exclusion.antt =====
-- One writer at a time, and each takes its own completion.
use linux_cc2520_driver.Prelude.{◌+◌, ◌≡◌, Buf, arith}
use linux_cc2520_driver.Device.{init, tx_done, rx_done, write_begin, write_end}
use linux_cc2520_driver.Device.World.{
  DeviceWorld, begin, Step, begins, completes, ends, receives, Reach, here, next,
}

pub record Inv (w : DeviceWorld) : Type 0 where
  pub exclusive : w.device.tx_sem + w.writers ≡ 1
  pub own : w.device.tx_done_sem + w.sending ≡ w.writers

pub begin-Inv : (t r : Buf) → Inv (begin t r)
unfolding init
begin-Inv t r = omega arith

pub Step-Inv : {w u : DeviceWorld} → Step w u → Inv w → Inv u
unfolding write_begin write_end tx_done rx_done
Step-Inv (begins nonblock interrupted user len d how es e eu) v = ground arith
Step-Inv (completes status g eu) v = ground arith
Step-Inv (ends n d r g e eu) v = ground arith
Step-Inv (receives buf len d e eu) v = ground arith

Reach-Inv : {s w : DeviceWorld} → Inv s → Reach s w → Inv w
Reach-Inv v here = v
Reach-Inv v (next r st) = Step-Inv st (Reach-Inv v r)

-- From initialisation on, with any number of writers, blocking or not, failed copies, receptions, and
-- completions at any time for packets that were handed down: at most one write is under way; `tx_sem`
-- is free exactly when none is; and the completions signalled and those still to come are one for each
-- write under way, so none is left over for the next write.
pub device_exclusion :
    (tx_fresh rx_fresh : Buf) {w : DeviceWorld}
    → Reach (begin tx_fresh rx_fresh) w
    → (w.device.tx_sem + w.writers ≡ 1) × (w.device.tx_done_sem + w.sending ≡ w.writers)
device_exclusion t r reach = let v = Reach-Inv (begin-Inv t r) reach in (v.exclusive, v.own)

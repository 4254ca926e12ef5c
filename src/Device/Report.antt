-- ===== src/Device/Report.antt =====
-- The statuses that the device is told, and the one that a finished write will report.
use linux_cc2520_driver.Prelude.{
  ℕ, ◌+◌, ◌≡◌, ◌⊎◌, inr, refl, Bool, true, false, ◌||◌, Option, none, some, List, [], memcpy, ltb,
  if◌then◌else◌, arith,
}
use linux_cc2520_driver.Config.{tx_success, tx_failed, neg_u8}
use linux_cc2520_driver.Statuses.{Heard, heard, is_true, AllReports, HeardTrue, HeardZero}
use linux_cc2520_driver.Parcels.{parcels}
use linux_cc2520_driver.Device.{
  Device, Writing, returned, waiting, write_begin, write_locked, write_end, tx_done, rx_done,
}
use linux_cc2520_driver.Device.Exclusion.{Inv}
use linux_cc2520_driver.Device.Payload.{written, effects}
use linux_cc2520_driver.Device.World.{DeviceWorld, Step, begins, completes, ends, receives}

abbrev pub told : {w u : DeviceWorld} → Step w u → Option ℕ
told (completes status g eu) = some status
told _ = none

pub Step-told : {w u : DeviceWorld} (st : Step w u) → u.answers ≡ w.answers + heard (told st)
unfolding write_begin write_locked tx_done write_end rx_done
Step-told (begins nonblock interrupted user len d how es e eu) = ground arith
Step-told (completes status g eu) = ground arith
Step-told (ends n d r g e eu) = ground arith
Step-told (receives buf len d e eu) = ground arith

-- The step takes a packet from a program.
abbrev pub is_accepted : Writing → Bool
is_accepted (returned r) = false
is_accepted (waiting n) = true

abbrev pub opens : {w u : DeviceWorld} → Step w u → Bool
opens (begins nonblock interrupted user len d how es e eu) = is_accepted how
opens _ = false

pub Step-opens :
    (packet : List ℕ) {w u : DeviceWorld} (st : Step w u)
    → Inv w
    → ((opens st ≡ true) × (w.sending ≡ 0)) ⊎ ((opens st ≡ false) × (written st packet ≡ packet))
unfolding write_begin write_locked memcpy
Step-opens packet (begins nonblock interrupted (some user) len d how es e eu) v = ground arith
Step-opens packet (begins nonblock interrupted none len d how es e eu) v = ground arith
Step-opens packet (completes status g eu) v = inr (refl, refl)
Step-opens packet (ends n d r g e eu) v = inr (refl, refl)
Step-opens packet (receives buf len d e eu) v = inr (refl, refl)

-- The result of a write that may go on is true of its packet.
abbrev pub ResultTrue : List ℕ → Bool → Device → Type 0
ResultTrue packet acked d =
    (if ltb 0 d.tx_done_sem then is_true packet acked d.tx_result else true) ≡ true

pub Step-ResultTrue :
    (packet : List ℕ) (acked : Bool) {w u : DeviceWorld} (st : Step w u)
    → Inv w
    → ResultTrue packet acked w.device
    → HeardTrue packet acked (told st)
    → ResultTrue (written st packet) (if opens st then false else acked) u.device
unfolding write_begin write_locked tx_done write_end rx_done memcpy
Step-ResultTrue packet acked (begins nonblock interrupted (some user) len d how es e eu) v h i =
    ground arith
Step-ResultTrue packet acked (begins nonblock interrupted none len d how es e eu) v h i =
    ground arith
Step-ResultTrue packet acked (completes status g eu) v h i = ground arith
Step-ResultTrue packet acked (ends n d r g e eu) v h i = ground arith
Step-ResultTrue packet acked (receives buf len d e eu) v h i = ground arith

pub ResultTrue-acked :
    (packet : List ℕ) (acked now : Bool) (d : Device)
    → ResultTrue packet acked d
    → ResultTrue packet (now || acked) d
ResultTrue-acked packet acked now d h = ground (arith, h)

abbrev pub ResultReports : Device → Type 0
ResultReports d =
    (d.tx_done_sem ≡ 0) ⊎ ((d.tx_result ≡ tx_success) ⊎ (d.tx_result ≡ neg_u8 tx_failed))

abbrev pub HeardReports : Option ℕ → Type 0
HeardReports none = Unit
HeardReports (some s) = (s ≡ tx_success) ⊎ (s ≡ neg_u8 tx_failed)

pub Heard-HeardReports :
    (o : Option ℕ) (before rest : List ℕ) → Heard o before rest → AllReports before → HeardReports o
Heard-HeardReports none before rest e h = tt
Heard-HeardReports (some s) before rest e h = (rw e at h).0

pub Step-ResultReports :
    {w u : DeviceWorld} (st : Step w u)
    → ResultReports w.device
    → HeardReports (told st)
    → ResultReports u.device
unfolding write_begin write_locked tx_done write_end rx_done memcpy
Step-ResultReports (begins nonblock interrupted (some user) len d how es e eu) h i = ground arith
Step-ResultReports (begins nonblock interrupted none len d how es e eu) h i = ground arith
Step-ResultReports (completes status g eu) h i = ground arith
Step-ResultReports (ends n d r g e eu) h i = ground arith
Step-ResultReports (receives buf len d e eu) h i = ground arith

abbrev pub ResultZero : Device → Type 0
ResultZero d = (d.tx_done_sem ≡ 0) ⊎ (d.tx_result ≡ tx_success)

pub Step-ResultZero :
    {w u : DeviceWorld} (st : Step w u)
    → opens st ≡ false
    → ResultZero w.device
    → HeardZero (told st)
    → ResultZero u.device × (parcels (effects st) ≡ [])
unfolding write_begin write_locked tx_done write_end rx_done memcpy
Step-ResultZero (begins nonblock interrupted (some user) len d how es e eu) o h i =
    ground (arith, o)
Step-ResultZero (begins nonblock interrupted none len d how es e eu) o h i = ground (arith, o)
Step-ResultZero (completes status g eu) o h i = ground arith
Step-ResultZero (ends n d r g e eu) o h i = ground arith
Step-ResultZero (receives buf len d e eu) o h i = ground arith

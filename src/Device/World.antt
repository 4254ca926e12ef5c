-- ===== src/Device/World.antt =====
-- Any number of writers and the completions from below. A completion comes only for a packet
-- handed down; a writer that waits goes on only when its semaphore lets it, and reads its result at
-- once (Device/Late is about a writer that does so later).
use linux_cc2520_driver.Prelude.{ℕ, ◌+◌, ◌-◌, ◌<◌, ◌≡◌, Bool, List, Option, Buf, ok}
use linux_cc2520_driver.Layer.{Effect}
use linux_cc2520_driver.Device.{
  Device, init, Writing, returned, waiting, Return, tx_done, rx_done, write_begin, write_end,
}

pub record DeviceWorld : Type 0 where
  pub device : Device
  -- writers between the two halves of `interface_write`
  pub writers : ℕ
  -- packets handed down and not completed
  pub sending : ℕ
  -- completions
  pub answers : ℕ

abbrev pub begin : Buf → Buf → DeviceWorld
begin tx_fresh rx_fresh = record {
  device = init tx_fresh rx_fresh;
  writers = 0;
  sending = 0;
  answers = 0;
}

-- The account of a `write` that has begun.
abbrev pub enter : DeviceWorld → Device → Writing → DeviceWorld
enter w d (returned r) = record w { device = d }
enter w d (waiting n) = record w { device = d; writers = w.writers + 1; sending = w.sending + 1 }

pub data Step (w u : DeviceWorld) : Type 0 where
  begins :
      (nonblock interrupted : Bool) (user : Option Buf) (len : ℕ) (d : Device) (how : Writing)
      (es : List Effect)
      → write_begin w.device nonblock interrupted user len ≡ ok (d, how, es)
      → u ≡ enter w d how
      → Step w u
  completes :
      (status : ℕ)
      → 0 < w.sending
      → u ≡ record w {
        device = tx_done w.device status;
        sending = w.sending - 1;
        answers = w.answers + 1;
      }
      → Step w u
  ends :
      (pkt_len : ℕ) (d : Device) (r : Return)
      → 0 < w.writers
      → write_end w.device pkt_len ≡ ok (d, r)
      → u ≡ record w { device = d; writers = w.writers - 1 }
      → Step w u
  receives :
      (buf : Buf) (len : ℕ) (d : Device)
      → rx_done w.device buf len ≡ ok d
      → u ≡ record w { device = d }
      → Step w u

pub data Reach (s : DeviceWorld) : DeviceWorld → Type 0 where
  here : Reach s s
  next : {w u : DeviceWorld} → Reach s w → Step w u → Reach s u

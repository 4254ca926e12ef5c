-- ===== src/Stack/Told.antt =====
-- The stack with the statuses of the completions on their way up: a layer's `tx_done` is run with the
-- status with which the oldest call was made. What the radio reports to sack.c may be any status.
use linux_cc2520_driver.Prelude.{
  ℕ, ◌≡◌, refl, Bool, false, ◌||◌, Option, none, List, [], ◌++◌, if◌then◌else◌,
}
use linux_cc2520_driver.Parcels.{statuses}
use linux_cc2520_driver.Statuses.{Heard}
use linux_cc2520_driver.Lpl.Payload as LplPayload
use linux_cc2520_driver.Csma.Payload as CsmaPayload
use linux_cc2520_driver.Sack.Payload as SackPayload
use linux_cc2520_driver.Device.Report as Device
use linux_cc2520_driver.Lpl.Report as Lpl
use linux_cc2520_driver.Csma.Report as Csma
use linux_cc2520_driver.Sack.Report as Sack
use linux_cc2520_driver.Stack.{Coupled, Fresh}
use linux_cc2520_driver.Stack.Cargo
use linux_cc2520_driver.Stack.Cargo.{
  Cargo, unladen, Carries, device_carries, lpl_carries, csma_carries, sack_carries, radio_carries,
}

pub record Told : Type 0 where
  pub cargo : Cargo
  -- statuses on their way from each layer to the one above, the oldest first
  pub lpl_says : List ℕ
  pub csma_says : List ℕ
  pub sack_says : List ℕ
  -- An acknowledgement has been received with the sequence number of the packet of the last write
  -- accepted, since that write, while sack.c waited for one.
  pub acked : Bool

abbrev pub untold : Fresh → Told
untold f = record {
  cargo = unladen f;
  lpl_says = [];
  csma_says = [];
  sack_says = [];
  acked = false;
}

abbrev pub device_hears : {w u : Cargo} → Carries w u → Option ℕ
device_hears (device_carries d st eu) = Device.told st
device_hears _ = none

abbrev pub lpl_hears : {w u : Cargo} → Carries w u → Option ℕ
lpl_hears (lpl_carries l st rest t eu) = Lpl.told st
lpl_hears _ = none

abbrev pub csma_hears : {w u : Cargo} → Carries w u → Option ℕ
csma_hears (csma_carries c st rest t eu) = Csma.told st
csma_hears _ = none

abbrev pub lpl_tells : {w u : Cargo} → Carries w u → List ℕ
lpl_tells (lpl_carries l st rest t eu) = statuses (LplPayload.effects st)
lpl_tells _ = []

abbrev pub csma_tells : {w u : Cargo} → Carries w u → List ℕ
csma_tells (csma_carries c st rest t eu) = statuses (CsmaPayload.effects st)
csma_tells _ = []

abbrev pub sack_tells : {w u : Cargo} → Carries w u → List ℕ
sack_tells (sack_carries s st rest t eu) = statuses (SackPayload.effects st)
sack_tells _ = []

-- The step takes a packet from a program.
abbrev pub device_opens : {w u : Cargo} → Carries w u → Bool
device_opens (device_carries d st eu) = Device.opens st
device_opens _ = false

-- The awaited acknowledgement arrives.
abbrev pub arrived : {w u : Cargo} → Carries w u → Bool
arrived {w} (sack_carries s st rest t eu) = Sack.arrives w.packet st
arrived _ = false

abbrev pub acked_after : {w u : Cargo} → Carries w u → Bool → Bool
acked_after (device_carries d st eu) acked = if Device.opens st then false else acked
acked_after {w} (sack_carries s st rest t eu) acked = Sack.arrives w.packet st || acked
acked_after _ acked = acked

pub data Tells (w u : Told) : Type 0 where
  tells :
      (m : Carries w.cargo u.cargo) (lpl_left csma_left sack_left : List ℕ)
      → Heard (device_hears m) w.lpl_says lpl_left
      → Heard (lpl_hears m) w.csma_says csma_left
      → Heard (csma_hears m) w.sack_says sack_left
      → u.lpl_says ≡ lpl_left ++ lpl_tells m
      → u.csma_says ≡ csma_left ++ csma_tells m
      → u.sack_says ≡ sack_left ++ sack_tells m
      → u.acked ≡ acked_after m w.acked
      → Tells w u

pub data Reach (f : Fresh) : Told → Type 0 where
  here : Reach f (untold f)
  next : {w u : Told} → Reach f w → Tells w u → Coupled u.cargo.stack → Reach f u

-- What a step makes of the statuses on their way.
abbrev pub after : (w : Told) (c : Cargo) → Carries w.cargo c → List ℕ → List ℕ → List ℕ → Told
after w c m lpl_left csma_left sack_left = record {
  cargo = c;
  lpl_says = lpl_left ++ lpl_tells m;
  csma_says = csma_left ++ csma_tells m;
  sack_says = sack_left ++ sack_tells m;
  acked = acked_after m w.acked;
}

pub Reach-after :
    {f : Fresh} {w : Told} {c : Cargo}
    → Reach f w
    → (m : Carries w.cargo c) (lpl_left csma_left sack_left : List ℕ)
    → Heard (device_hears m) w.lpl_says lpl_left
    → Heard (lpl_hears m) w.csma_says csma_left
    → Heard (csma_hears m) w.sack_says sack_left
    → Coupled c.stack
    → Reach f (after w c m lpl_left csma_left sack_left)
Reach-after r m ll cl sl hd hl hc k = next r (tells m ll cl sl hd hl hc refl refl refl refl) k

pub Reach-cargo : {f : Fresh} {w : Told} → Reach f w → Cargo.Reach f w.cargo
Reach-cargo here = Cargo.here
Reach-cargo (next r (tells m a b c hd hl hc el ec es ea) k) = Cargo.next (Reach-cargo r) m k

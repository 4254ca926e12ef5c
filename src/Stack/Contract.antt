-- ===== src/Stack/Contract.antt =====
-- What the driver as a whole promises a program that writes a packet, as a machine of three phases, and
-- the stack as an implementation of it.
use Prim.Native.Nat.{min}
use linux_cc2520_driver.Prelude.{
  ℕ, ◌≡◌, inl, inr, refl, Bool, Bool-cases, true, false, not, ◌||◌, ◌&&◌, Option, none, some, List,
  take, memcpy, ltb, ◌==◌, if◌then◌else◌, arith,
}
use linux_cc2520_driver.Config.{tx_success, tx_failed, neg_u8}
use linux_cc2520_driver.Statuses.{Heard, needs_ack, AllTrue, AllReports, AllZero}
use linux_cc2520_driver.Sack.Report as Sack
use linux_cc2520_driver.Sack.Completion as SackTx
use linux_cc2520_driver.Device
use linux_cc2520_driver.Device.{write_begin, write_locked, write_end, tx_done, rx_done}
use linux_cc2520_driver.Device.World.{DeviceWorld, Step, begins, completes, ends, receives}
use linux_cc2520_driver.Device.Exclusion as Exclusion
use linux_cc2520_driver.Device.Payload as DevicePayload
use linux_cc2520_driver.Device.Report as DeviceReport
use linux_cc2520_driver.Stack.{Fresh}
use linux_cc2520_driver.Stack.Conservation.{Reach-Inv, stack_conservation}
use linux_cc2520_driver.Stack.Cargo
use linux_cc2520_driver.Stack.Cargo.{
  Cargo, Carries, device_carries, lpl_carries, csma_carries, sack_carries, radio_carries,
}
use linux_cc2520_driver.Stack.Counts.{Reach-stack}
use linux_cc2520_driver.Stack.Told.{
  Told, untold, Tells, tells, device_hears, acked_after, Reach, Reach-cargo,
}
use linux_cc2520_driver.Stack.Truth.{Reach-Truth}
use linux_cc2520_driver.Stack.Settled.{Reach-Settled}
use linux_cc2520_driver.Stack.Reports.{Reach-Reports}

-- No packet; a packet under way, and whether it has been acknowledged; its result, not yet returned.
pub data Phase : Type 0 where
  free : Phase
  under_way : List ℕ → Bool → Phase
  finished : List ℕ → Bool → ℕ → Phase

-- Success or -CC2520_TX_FAILED; and of a packet that asks for an acknowledgement, success exactly if
-- it has been acknowledged.
abbrev pub is_honest : List ℕ → Bool → ℕ → Bool
is_honest packet acked result =
    ((result == tx_success) || (result == neg_u8 tx_failed))
    && (not (needs_ack packet)
        || (if acked then result == tx_success else not (result == tx_success)))

pub data Promises (p q : Phase) : Type 0 where
  stays : q ≡ p → Promises p q
  accepts : (packet : List ℕ) → p ≡ free → q ≡ under_way packet false → Promises p q
  acknowledges :
      (packet : List ℕ) (acked : Bool)
      → p ≡ under_way packet acked
      → q ≡ under_way packet true
      → Promises p q
  finishes :
      (packet : List ℕ) (acked : Bool) (result : ℕ)
      → p ≡ under_way packet acked
      → is_honest packet acked result ≡ true
      → q ≡ finished packet acked result
      → Promises p q
  hands_back :
      (packet : List ℕ) (acked : Bool) (result : ℕ)
      → p ≡ finished packet acked result
      → q ≡ free
      → Promises p q

abbrev pub phase_of : DeviceWorld → List ℕ → Bool → Phase
phase_of d packet acked =
    if ltb 0 d.sending
    then under_way packet acked
    else if ltb 0 d.device.tx_done_sem
    then finished packet acked d.device.tx_result
    else free

abbrev pub phase : Told → Phase
phase w = phase_of w.cargo.stack.device w.cargo.packet w.acked

-- The status of a completion is honest where the reports are true.
abbrev pub HeardHonest : List ℕ → Bool → Option ℕ → Type 0
HeardHonest packet acked none = Unit
HeardHonest packet acked (some s) = is_honest packet acked s ≡ true

device-Promises :
    (packet : List ℕ) (acked : Bool) {w u : DeviceWorld} (st : Step w u)
    → Exclusion.Inv w
    → HeardHonest packet acked (DeviceReport.told st)
    → Promises (phase_of w packet acked) (
        phase_of u
          (DevicePayload.written st packet)
          (if DeviceReport.opens st then false else acked))
unfolding write_begin write_locked tx_done write_end rx_done memcpy
device-Promises packet acked (begins nonblock interrupted none len d how es e eu) v h =
    stays (ground (arith, e, v))
device-Promises packet acked {w} (begins nonblock interrupted (some user) len d how es e eu) v h =
    elim (Bool-cases (ltb 0 w.device.tx_sem)) [
      | inl opened ↦
          accepts (take (min len 128) user) (ground (arith, opened, v))
            (ground (arith, opened, e, v))
      | inr taken ↦ stays (ground (arith, taken, e, v))
    ]
device-Promises packet acked {w} {u} (completes status g eu) v h =
    finishes packet acked status (ground (arith, g)) h (ground (arith, v))
device-Promises packet acked {w} (ends n d r g e eu) v h =
    hands_back packet acked w.device.tx_result (ground (arith, e, v)) (ground (arith, e, v))
device-Promises packet acked (receives buf len d e eu) v h = stays (ground (arith, e))

-- The oldest completion on its way to the device is honest.
head-HeardHonest :
    (packet : List ℕ) (acked : Bool) (o : Option ℕ) (ls ll : List ℕ)
    → Heard o ls ll
    → AllTrue packet acked ls
    → AllReports ls
    → (needs_ack packet ≡ true → acked ≡ true → AllZero ls)
    → HeardHonest packet acked o
head-HeardHonest packet acked none ls ll e t r z = tt
head-HeardHonest packet acked (some s) ls ll e t r z =
    let (true_of, _) = rw e at t in
    let (reports, _) = rw e at r in
    elim (Bool-cases (needs_ack packet)) [
      | inr asks_nothing ↦ ground (arith, reports, asks_nothing)
      | inl asks ↦ elim (Bool-cases acked) [
        | inl yes_acked ↦
            let (zero_of, _) = rw e at (z asks yes_acked) in
            ground (arith, zero_of, asks, yes_acked)
        | inr not_acked ↦ ground (arith, true_of, reports, asks, not_acked)
      ]
    ]

-- An acknowledgement that arrives is that of a packet under way.
busy-sending :
    {f : Fresh} {w : Cargo}
    → Cargo.Reach f w
    → SackTx.load w.stack.sack.layer.sack_state ≡ 1
    → w.stack.device.sending ≡ 1
busy-sending {w = w} r e =
    let v = Reach-Inv (Reach-stack r) in
    let (bd, bl, bc, bs, fd, fl, fc, fs) = stack_conservation (Reach-stack r) in
    let one_csma : w.stack.csma.ledger.sending ≡ 1 = omega (arith, bc, fc, e) in
    let one_lpl : w.stack.lpl.ledger.sending ≡ 1 = omega (arith, bl, fl, v.csma.busy, one_csma) in
    omega (arith, bd, fd, v.lpl.sends, one_lpl)

Carries-Promises :
    {f : Fresh} {w u : Cargo}
    → Cargo.Reach f w
    → (m : Carries w u) (acked : Bool) → HeardHonest w.packet acked (device_hears m)
    → Promises
        (phase_of w.stack.device w.packet acked)
        (phase_of u.stack.device u.packet (acked_after m acked))
Carries-Promises {w = w} r (device_carries d st eu) acked h =
    rw eu (device-Promises w.packet acked st (Reach-Inv (Reach-stack r)).device h)
Carries-Promises r (lpl_carries l st rest t eu) acked h = stays (rw eu)
Carries-Promises r (csma_carries l st rest t eu) acked h = stays (rw eu)
Carries-Promises r (radio_carries l st rest t eu) acked h = stays (rw eu)
Carries-Promises {w = w} r (sack_carries s st rest t eu) acked h =
    elim (Bool-cases (Sack.arrives w.packet st)) [
      | inr none_arrives ↦ stays (rw (eu, none_arrives))
      | inl arrived ↦
          let one = busy-sending r (Sack.arrives-waits w.packet st arrived) in
          acknowledges w.packet acked (rw one) (rw (eu, arrived, one))
    ]

-- The stack with LPL and CSMA left enabled, in whatever order its steps come and whatever the statuses of
-- the radio and the received packets are, refines the machine of three phases: it starts with no packet,
-- and every step of it is none, or a step of that machine. So a packet is accepted only where there is
-- none, gets one result, which is success or -CC2520_TX_FAILED and for a packet that asks for an
-- acknowledgement is success exactly if it has been acknowledged while under way, and the result is
-- handed back once.
pub stack_contract :
    {f : Fresh} {w u : Told}
    → Reach f w
    → Tells w u
    → Promises (phase w) (phase u) × (phase (untold f) ≡ free)
unfolding Device.init
stack_contract {w = w} r (tells m ll cl sl hd hl hc el ec es ea) =
    let t = Reach-Truth r in
    let h =
      head-HeardHonest w.cargo.packet w.acked (device_hears m) w.lpl_says ll hd t.lpl
        (Reach-Reports r).lpl (λ asks acked. (Reach-Settled r asks acked).lpl) in
    (rw ea (Carries-Promises (Reach-cargo r) m w.acked h), refl)

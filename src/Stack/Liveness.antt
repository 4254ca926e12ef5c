-- ===== src/Stack/Liveness.antt =====
-- Runs of the stack that bring the packet of a write to its completion.
use linux_cc2520_driver.Prelude.{ℕ, zero, suc, ◌+◌, ◌≤◌, ◌≡◌, ◌⊎◌, inl, inr, refl, true, arith}
use linux_cc2520_driver.Device.World as DeviceMachine
use linux_cc2520_driver.Csma.Advance as Csma
use linux_cc2520_driver.Csma.Progress.{IsConfigured}
use linux_cc2520_driver.Stack.{Fresh, Coupled}
use linux_cc2520_driver.Stack.Conservation.{Inv, Reach-Inv, Reach-Coupled}
use linux_cc2520_driver.Stack.Cargo.{
  Cargo, Carries, device_carries, lpl_carries, csma_carries, sack_carries, radio_carries, Reach,
  next,
}
use linux_cc2520_driver.Stack.Counts.{Reach-stack}
use linux_cc2520_driver.Stack.Sizes.{IsAllocated}
use linux_cc2520_driver.Stack.Advance.{is_progress}
use linux_cc2520_driver.Stack.Distance.{distance, Carries-distance, Reach-distance}
use linux_cc2520_driver.Stack.Progress.{stack_progress}

-- A run of `n` steps that each bring the packet nearer to its completion.
pub data Run (u : Cargo) : ℕ → Cargo → Type 0 where
  arrived : Run u 0 u
  nearer :
      {n : ℕ} {w v : Cargo} (m : Carries w v)
      → is_progress m ≡ true
      → Coupled v.stack
      → Run u n v
      → Run u (n + 1) w

-- A step that brings the packet nearer completes it, or leaves the write waiting and the bounds on the
-- backoff as they are.
Carries-waits :
    {w u : Cargo} (m : Carries w u)
    → is_progress m ≡ true
    → Inv w.stack
    → IsConfigured w.stack.csma.layer
    → (u.stack.device.answers ≡ w.stack.device.answers + 1)
      ⊎ ((u.stack.device.answers ≡ w.stack.device.answers)
          × (u.stack.device.sending ≡ w.stack.device.sending)
          × IsConfigured u.stack.csma.layer)
unfolding linux_cc2520_driver.Device.tx_done
Carries-waits (device_carries d (DeviceMachine.completes status g ed) eu) p i b =
    inl (rw eu (rw ed refl))
Carries-waits (device_carries d (DeviceMachine.begins x y z len e how es o ed) eu) p i b =
    absurd (ground (arith, p))
Carries-waits (device_carries d (DeviceMachine.ends n e x g o ed) eu) p i b =
    absurd (ground (arith, p))
Carries-waits (device_carries d (DeviceMachine.receives buf len e o ed) eu) p i b =
    absurd (ground (arith, p))
Carries-waits (lpl_carries l st rest t eu) p i b = inr (rw eu (refl, refl, b))
Carries-waits (csma_carries l st rest t eu) p i b =
    inr (rw eu (refl, refl, Csma.Step-IsConfigured st i.csma p b))
Carries-waits (sack_carries l st rest t eu) p i b = inr (rw eu (refl, refl, b))
Carries-waits (radio_carries l st rest t eu) p i b = inr (rw eu (refl, refl, b))

abbrev pub Completes : ℕ → Cargo → Type 0
Completes bound w =
    (n : ℕ) × (u : Cargo) × Run u n w
    × (n ≤ bound)
    × (u.stack.device.answers ≡ w.stack.device.answers + 1)

comes_within :
    {f : Fresh} (bound : ℕ) {w : Cargo}
    → distance w ≤ bound
    → IsAllocated f
    → Reach f w
    → IsConfigured w.stack.csma.layer
    → w.stack.device.sending ≡ 1
    → Completes bound w
comes_within zero {w} h a r b e =
    let (u, m, p, k) = stack_progress a r b e in
    absurd (
      omega (
        arith,
        h,
        Carries-distance m p (Reach-Inv (Reach-stack r)) (Reach-Coupled (Reach-stack r)) k,
      ))
comes_within {f} (suc bound) {w} h a r b e =
    let (u, m, p, k) = stack_progress a r b e in
    let i = Reach-Inv (Reach-stack r) in
    let less = Carries-distance m p i (Reach-Coupled (Reach-stack r)) k in
    elim (Carries-waits m p i b) [
      | inl over ↦ (1, u, nearer m p k arrived, omega arith, over)
      | inr (same, waits, b') ↦
          let (n, v, run, le, over) =
            comes_within bound (omega (arith, h, less)) a (next r m k) b'
              (omega (arith, waits, e)) in
          (n + 1, v, nearer m p k run, omega (arith, le), omega (arith, over, same))
    ]

-- From every state that the stack reaches from buffers of the allocated sizes without a call of ioctl
-- (no setting changed, the radio neither turned on nor off, LPL and CSMA left enabled), while none of
-- `cc2520_radio_start`, `_on` and `_off` is at work, whatever acknowledgement or packet is under way: while a write waits for its packet and the
-- bounds on the backoff are ones that csma.c can compute with, the completion of the packet reaches the
-- write after at most 25 further steps, for a choice of steps that is possible at each point. A step is
-- the handler of a call or of a completion on its way, the start of the timer by `cc2520_lpl_tx`, the
-- handler of the end of the listening period, of the
-- backoff timer with a clear channel, of the work of csma.c, of the timer of an awaited
-- acknowledgement, of the answer of the SPI bus to the transmit engine, or of the end of a frame that is
-- written. So no interleaving of these steps leads to a deadlock.
pub stack_comes_through :
    {f : Fresh} {w : Cargo}
    → IsAllocated f
    → Reach f w
    → IsConfigured w.stack.csma.layer
    → w.stack.device.sending ≡ 1
    → Completes 25 w
stack_comes_through a r b e = comes_within 25 (Reach-distance r) a r b e

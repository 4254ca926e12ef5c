-- ===== src/Stack/Reports.antt =====
-- The result that a write returns, and what it says of the packet.
use linux_cc2520_driver.Prelude.{
  ℕ, ◌+◌, ◌≡◌, ◌≤◌, ◌⊎◌, ◌↔◌, inl, refl, true, List, [], ◌++◌, length, le→leb, ok, arith,
}
use linux_cc2520_driver.Config.{tx_failed, neg_u8}
use linux_cc2520_driver.Parcels.{inputs, statuses, Taken-length}
use linux_cc2520_driver.Statuses.{Heard, AllReports, AllReports-append, Heard-AllReports}
use linux_cc2520_driver.Packet.{requires_ack_wait}
use linux_cc2520_driver.Lpl.Completion as LplTx
use linux_cc2520_driver.Lpl.Payload as LplPayload
use linux_cc2520_driver.Lpl.Report as Lpl
use linux_cc2520_driver.Device
use linux_cc2520_driver.Device.{Device, Return, value, write_end}
use linux_cc2520_driver.Device.Report as DeviceReport
use linux_cc2520_driver.Stack.{Fresh}
use linux_cc2520_driver.Stack.Conservation.{Reach-Inv, stack_conservation}
use linux_cc2520_driver.Stack.Cargo
use linux_cc2520_driver.Stack.Cargo.{
  Cargo, unladen, Carries, device_carries, lpl_carries, csma_carries, sack_carries, radio_carries,
}
use linux_cc2520_driver.Stack.Counts.{Reach-stack, Reach-Counts}
use linux_cc2520_driver.Stack.Told.{
  Told, tells, device_hears, lpl_tells, Reach, here, next, Reach-cargo,
}
use linux_cc2520_driver.Stack.Truth.{Reach-Truth}
use linux_cc2520_driver.Stack.Settled.{Reach-Settled}

pub record Reports (c : Cargo) (ls : List ℕ) : Type 0 where
  pub lpl : AllReports ls
  pub device : DeviceReport.ResultReports c.stack.device.device

Carries-Reports :
    {f : Fresh} {w u : Cargo}
    → Cargo.Reach f w
    → (m : Carries w u) (ls ll : List ℕ) → Heard (device_hears m) ls ll
    → Reports w ls
    → Reports u (ll ++ lpl_tells m)
Carries-Reports r (device_carries d st eu) ls ll hd h = rw eu (record {
  lpl = AllReports-append ll [] (Heard-AllReports (DeviceReport.told st) ls ll hd h.lpl) tt;
  device =
      DeviceReport.Step-ResultReports st h.device
        (DeviceReport.Heard-HeardReports (DeviceReport.told st) ls ll hd h.lpl);
})
Carries-Reports {w = w} r (lpl_carries l st rest t eu) ls ll hd h =
    let n = Reach-Counts r in
    let v = Reach-Inv (Reach-stack r) in
    let c = stack_conservation (Reach-stack r) in
    let alone : LplTx.load w.stack.lpl.layer.lpl_state + inputs (LplPayload.input st) ≤ 1 =
      omega (arith, n.lpl, c.0, c.4, Taken-length (LplPayload.input st) w.to_lpl rest t) in
    rw eu (record {
      lpl =
          AllReports-append ll (statuses (LplPayload.effects st)) (rw hd h.lpl)
            (Lpl.Step-AllReports st v.lpl alone);
      device = h.device;
    })
Carries-Reports r (csma_carries l st rest t eu) ls ll hd h =
    rw eu (record { lpl = AllReports-append ll [] (rw hd h.lpl) tt; device = h.device })
Carries-Reports r (sack_carries l st rest t eu) ls ll hd h =
    rw eu (record { lpl = AllReports-append ll [] (rw hd h.lpl) tt; device = h.device })
Carries-Reports r (radio_carries l st rest t eu) ls ll hd h =
    rw eu (record { lpl = AllReports-append ll [] (rw hd h.lpl) tt; device = h.device })

Reports-untold : (f : Fresh) → Reports (unladen f) []
unfolding Device.init
Reports-untold f = record { lpl = tt; device = inl refl }

pub Reach-Reports : {f : Fresh} {w : Told} → Reach f w → Reports w.cargo w.lpl_says
Reach-Reports {f} here = Reports-untold f
Reach-Reports (next {w} r (tells m ll cl sl hd hl hc el ec es ea) k) =
    rw el (Carries-Reports (Reach-cargo r) m w.lpl_says ll hd (Reach-Reports r))

-- In every run of the stack from initialisation on with LPL and CSMA left enabled, whatever the
-- interleaving, the statuses of the radio and the received packets: when the write of a packet of at
-- least four bytes that asks for an acknowledgement returns, and reads its result as soon as it has
-- been woken, before another packet is completed, it returns the length of the packet if and
-- only if an acknowledgement with the packet's sequence number has been received since the write was
-- accepted, while sack.c waited for it.
pub stack_acknowledged :
    {f : Fresh} {w : Told} (n : ℕ) {d : Device} {result : Return}
    → Reach f w
    → n ≤ 128
    → write_end w.cargo.stack.device.device n ≡ ok (d, result)
    → 4 ≤ length w.cargo.packet
    → requires_ack_wait w.cargo.packet ≡ true
    → (result ≡ value n) ↔ (w.acked ≡ true)
unfolding write_end
stack_acknowledged {w = w} n r small done long asks =
    let long' = le→leb 4 (length w.cargo.packet) long in
    (
      λ same.
          ground (arith, done, same, (Reach-Truth r).result, (Reach-Reports r).device, long', asks),
      λ acked. ground (arith, done, (Reach-Settled r (ground (arith, long', asks)) acked).result),
    )

-- In every run of the stack from initialisation on with LPL and CSMA left enabled, whatever the
-- interleaving, the statuses of the radio and the received packets: a write that returns after its
-- wait, and reads its result as soon as it has been woken, returns the length of its packet or -CC2520_TX_FAILED as a byte, 252.
pub stack_reports :
    {f : Fresh} {w : Told} (n : ℕ) {d : Device} {result : Return}
    → Reach f w
    → write_end w.cargo.stack.device.device n ≡ ok (d, result)
    → (result ≡ value n) ⊎ (result ≡ value (neg_u8 tx_failed))
unfolding write_end
stack_reports n r done = ground (arith, done, (Reach-Reports r).device)

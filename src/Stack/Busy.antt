-- ===== src/Stack/Busy.antt =====
-- What waits between the layers while sack.c has a packet.
use linux_cc2520_driver.Prelude.{ℕ, ◌+◌, ◌≡◌, List, length, arith}
use linux_cc2520_driver.Sack.Completion as SackTx
use linux_cc2520_driver.Ledger.{bit}
use linux_cc2520_driver.Stack.{Fresh}
use linux_cc2520_driver.Stack.Conservation.{Reach-Inv, stack_conservation}
use linux_cc2520_driver.Stack.Cargo.{Cargo}
use linux_cc2520_driver.Stack.Cargo
use linux_cc2520_driver.Stack.Counts.{Reach-stack, Reach-Counts}
use linux_cc2520_driver.Stack.Says.{Says}

-- While sack.c has a packet the layers above it only wait for it.
pub busy-Says :
    {f : Fresh} {w : Cargo} {ls cs ss : List ℕ}
    → Cargo.Reach f w
    → Says w ls cs ss
    → SackTx.load w.stack.sack.layer.sack_state ≡ 1
    → (length w.to_sack ≡ 0)
      × (length ss ≡ 0)
      × (bit w.stack.csma.ledger.armed + bit w.stack.csma.ledger.queued ≡ 0)
      × (length w.to_csma ≡ 0)
      × (length cs ≡ 0)
      × (length w.to_lpl ≡ 0)
      × (length ls ≡ 0)
      × (w.stack.device.device.tx_done_sem ≡ 0)
busy-Says {w = w} r n e =
    let v = Reach-Inv (Reach-stack r) in
    let (bd, bl, bc, bs, fd, fl, fc, fs) = stack_conservation (Reach-stack r) in
    let m = Reach-Counts r in
    let one_csma : w.stack.csma.ledger.sending ≡ 1 = omega (arith, bc, fc, e) in
    let one_lpl : w.stack.lpl.ledger.sending ≡ 1 = omega (arith, bl, fl, v.csma.busy, one_csma) in
    let one : w.stack.device.sending ≡ 1 = omega (arith, bd, fd, v.lpl.sends, one_lpl) in
    (
      omega (arith, m.sack, fc, one_csma, e),
      omega (arith, n.sack, fc, one_csma, e),
      omega (arith, v.csma.busy, fl, one_lpl, one_csma),
      omega (arith, m.csma, v.csma.busy, fl, one_lpl, one_csma),
      omega (arith, n.csma, v.csma.busy, fl, one_lpl, one_csma),
      omega (arith, m.lpl, v.lpl.sends, fd, one, one_lpl),
      omega (arith, n.lpl, v.lpl.sends, fd, one, one_lpl),
      omega (arith, one, v.device.exclusive, v.device.own),
    )

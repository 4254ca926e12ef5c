-- ===== src/Unique/Traffic.antt =====
-- Any sequence of received packets.
use linux_cc2520_driver.Prelude.{ℕ, ◌≡◌, refl, true, List, [], ◌∷◌, ◌++◌, Buf, ok, ◌>>=◌, arith}
use linux_cc2520_driver.Layer.{Handled}
use linux_cc2520_driver.Unique.{Nodes, init, rx_done}
use linux_cc2520_driver.Unique.History.{History, delivered}
use linux_cc2520_driver.Unique.Filter.{Represents, init-Represents, rx_done-Represents}

-- `rx_done` for each packet with its length, allocations succeeding; the calls in order.
pub receive_all : Nodes → List (Buf × ℕ) → Handled Nodes
receive_all nodes [] = ok (nodes, [])
receive_all nodes ((buf, len) ∷ rest) = do
  (nodes', now) ← rx_done nodes buf len true
  (nodes'', later) ← receive_all nodes' rest
  ok (nodes'', now ++ later)

receive_all-Represents :
    (packets : List (Buf × ℕ)) (nodes : Nodes) (before : History)
    → Represents nodes before
    → (nodes' : Nodes) × (receive_all nodes packets ≡ ok (nodes', delivered before packets))
unfolding receive_all delivered
receive_all-Represents [] nodes before r = (nodes, refl)
receive_all-Represents ((buf, len) ∷ rest) nodes before r =
    let (nodes', e, r') = rx_done-Represents nodes before buf len r in
    let (nodes'', e') = receive_all-Represents rest nodes' (buf ∷ before) r' in
    (nodes'', rw (e, e') (ground arith))

-- From the empty list on, the layer passes up exactly the packets whose sequence number differs
-- from that of the packet last received from the same source, in order and unchanged, if every
-- allocation succeeds.
pub receive_all-delivered :
    (packets : List (Buf × ℕ))
    → (nodes : Nodes) × (receive_all init packets ≡ ok (nodes, delivered [] packets))
receive_all-delivered packets = receive_all-Represents packets init [] init-Represents

-- ===== src/Stack/Upward.antt =====
-- A received packet on its way up: `rx_done` of each layer calls that of the layer above, as
-- `setup_bindings` binds them, and returns when that has returned; so the way from the radio's
-- `finishRx` to the character device is one function.
use linux_cc2520_driver.Prelude.{ℕ, Bool, List, [], ◌∷◌, ◌++◌, Buf, Outcome, ok, ◌>>=◌}
use linux_cc2520_driver.Layer.{Effect, top_rx_done, release_rx}
use linux_cc2520_driver.Radio.State.{Radio, RadioEffect}
use linux_cc2520_driver.Radio.State
use linux_cc2520_driver.Radio.Rx
use linux_cc2520_driver.Sack
use linux_cc2520_driver.Csma
use linux_cc2520_driver.Lpl
use linux_cc2520_driver.Unique
use linux_cc2520_driver.Device

pub record Receiver : Type 0 where
  pub radio : Radio
  pub sack : Sack.Sack
  pub csma : Csma.Csma
  pub lpl : Lpl.Lpl
  pub nodes : Unique.Nodes
  pub device : Device.Device

-- What a layer's `rx_done` comes to, with the calls that go elsewhere than up.
abbrev pub Received : Type 0
Received = Outcome (Receiver × List Effect)

-- A handler's calls in order, `up` being the `rx_done` that the layer above has bound.
unfoldable pub dispatch : (Receiver → Buf → ℕ → Received) → Receiver → List Effect → Received
dispatch up r [] = ok (r, [])
dispatch up r (top_rx_done buf len ∷ es) = do
  (above, out) ← up r buf len
  (done, rest) ← dispatch up above es
  ok (done, out ++ rest)
dispatch up r (release_rx ∷ es) = dispatch up (record r { radio = Rx.release_rx r.radio }) es
dispatch up r (e ∷ es) = do (done, rest) ← dispatch up r es; ok (done, e ∷ rest)

unfoldable pub interface_up : Receiver → Buf → ℕ → Received
interface_up r buf len = do
  device ← Device.rx_done r.device buf len
  ok (record r { device = device }, [])

-- `alloc` says whether unique.c can allocate a node.
unfoldable pub unique_up : Bool → Receiver → Buf → ℕ → Received
unfolding dispatch interface_up
unique_up alloc r buf len = do
  (nodes, es) ← Unique.rx_done r.nodes buf len alloc
  dispatch interface_up (record r { nodes = nodes }) es

unfoldable pub lpl_up : Bool → Receiver → Buf → ℕ → Received
unfolding dispatch unique_up
lpl_up alloc r buf len = do
  (lpl, es) ← Lpl.rx_done r.lpl buf len
  dispatch (unique_up alloc) (record r { lpl = lpl }) es

unfoldable pub csma_up : Bool → Receiver → Buf → ℕ → Received
unfolding dispatch lpl_up
csma_up alloc r buf len = do
  (csma, es) ← Csma.rx_done r.csma buf len
  dispatch (lpl_up alloc) (record r { csma = csma }) es

unfoldable pub sack_up : Bool → Receiver → Buf → ℕ → Received
unfolding dispatch csma_up
sack_up alloc r buf len = do
  (sack, es) ← Sack.rx_done r.sack buf len
  dispatch (csma_up alloc) (record r { sack = sack }) es

-- `cc2520_radio_finishRx` hands up the frame of `len` bytes that it has read.
unfoldable pub hand_up : Bool → Receiver → List RadioEffect → Received
unfolding sack_up
hand_up alloc r [] = ok (r, [])
hand_up alloc r (State.top_rx_done buf len ∷ es) = do
  (above, out) ← sack_up alloc r buf len
  (done, rest) ← hand_up alloc above es
  ok (done, out ++ rest)
hand_up alloc r (_ ∷ es) = hand_up alloc r es

unfoldable pub receive : Bool → Receiver → ℕ → Received
unfolding hand_up
receive alloc r len = do
  (radio, es) ← Rx.rx_deliver r.radio len
  hand_up alloc (record r { radio = radio }) es

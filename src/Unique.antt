-- ===== src/Unique.antt =====
-- unique.c: drops a received packet whose source and sequence number repeat.
-- `nodes` is the kernel list, front first. Its `kmalloc` may fail: `alloc` says whether it succeeds.
pub mod History
pub mod Filter
pub mod Traffic
mod Tests
use linux_cc2520_driver.Prelude.{ℕ, Bool, true, false, List, [], ◌∷◌, Buf, ok, ◌==◌, if◌then◌else◌}
use linux_cc2520_driver.Packet.{header_dsn, get_src}
use linux_cc2520_driver.Layer.{Effect, bottom_tx, top_tx_done, top_rx_done, Handled}

pub record Node : Type 0 where
  pub src : ℕ
  pub dsn : ℕ

abbrev pub Nodes : Type 0
Nodes = List Node

unfoldable pub init : Nodes
init = []

-- `list_for_each_entry`: whether an entry for `src` was found, whether the packet is to be dropped,
-- and the list with the entry's sequence number updated.
unfoldable pub search_nodes : Nodes → ℕ → ℕ → Bool × Bool × Nodes
search_nodes [] src dsn = (false, false, [])
search_nodes (tmp ∷ rest) src dsn =
    let (found, drop, rest') = search_nodes rest src dsn in
    if tmp.src == src
    then (if tmp.dsn == dsn
        then (true, true, tmp ∷ rest)
        else (true, false, record tmp { dsn = dsn } ∷ rest))
    else (found, drop, tmp ∷ rest')

-- `list_add` of a fresh node, if there was none and one can be allocated.
unfoldable pub remember : Bool → Bool → ℕ → ℕ → Nodes → Nodes
remember true alloc src dsn nodes = nodes
remember false true src dsn nodes = record { src = src; dsn = dsn } ∷ nodes
remember false false src dsn nodes = nodes

unfoldable pub tx : Nodes → Buf → ℕ → Handled Nodes
tx nodes buf len = ok (nodes, bottom_tx buf len ∷ [])

unfoldable pub tx_done : Nodes → ℕ → Handled Nodes
tx_done nodes status = ok (nodes, top_tx_done status ∷ [])

unfoldable pub rx_done : Nodes → Buf → ℕ → Bool → Handled Nodes
unfolding search_nodes remember
rx_done nodes buf len alloc =
    let dsn = header_dsn buf in
    let src = get_src buf in
    let (found, drop, nodes') = search_nodes nodes src dsn in
    ok (remember found alloc src dsn nodes', if drop then [] else top_rx_done buf len ∷ [])

-- `cc2520_unique_free`: every entry is unlinked and freed.
free : Nodes → Nodes
free [] = []
free (pos ∷ q) = free q

-- ===== src/Unique/Filter.antt =====
-- The list of nodes against the history of packets.
use linux_cc2520_driver.Prelude.{
  ℕ, ◌≡◌, ◌⊎◌, refl, Bool, true, false, Option, none, some, List, [], ◌∷◌, Buf, ok, ◌==◌,
  if◌then◌else◌, arith,
}
use linux_cc2520_driver.Packet.{header_dsn, get_src}
use linux_cc2520_driver.Layer.{Effect, top_rx_done}
use linux_cc2520_driver.Unique.{Nodes, init, search_nodes, remember, rx_done}
use linux_cc2520_driver.Unique.History.{History, last_dsn, is_seen, is_duplicate}

-- The sequence number that the list holds for a source.
abbrev pub lookup : ℕ → Nodes → Option ℕ
lookup src [] = none
lookup src (n ∷ ns) = if n.src == src then some n.dsn else lookup src ns

abbrev pub is_known : Option ℕ → Bool
is_known none = false
is_known (some d) = true

-- The loop finds the entry of the source, and drops exactly if it holds the same number.
search_nodes_lem :
    (ns : Nodes) (src dsn : ℕ)
    → let (found, drop, ns') = search_nodes ns src dsn in
      (found ≡ is_known (lookup src ns)) × (drop ≡ is_seen (lookup src ns) dsn)
unfolding search_nodes
search_nodes_lem [] src dsn = (refl, refl)
search_nodes_lem (n ∷ ns) src dsn = ground (arith, search_nodes_lem ns src dsn)

-- After it the source's entry, if there is one, holds the new number; no other entry changes.
lookup-search_nodes :
    (ns : Nodes) (src dsn other : ℕ)
    → lookup other (search_nodes ns src dsn).2 ≡ (
        if src == other
        then (if is_known (lookup src ns) then some dsn else none)
        else lookup other ns)
unfolding search_nodes
lookup-search_nodes [] src dsn other = ground arith
lookup-search_nodes (n ∷ ns) src dsn other = ground (arith, lookup-search_nodes ns src dsn other)

-- A source is in the list at most once.
abbrev pub Distinct : Nodes → Type 0
Distinct [] = Unit
Distinct (n ∷ ns) = (lookup n.src ns ≡ none) × Distinct ns

-- A list that stands for a history: the same number for every source, and one entry each.
pub record Represents (ns : Nodes) (before : History) : Type 0 where
  pub agrees : (src : ℕ) → lookup src ns ≡ last_dsn src before
  pub distinct : Distinct ns

search_nodes-Distinct :
    (ns : Nodes) (src dsn : ℕ) → Distinct ns → Distinct (search_nodes ns src dsn).2
unfolding search_nodes
search_nodes-Distinct [] src dsn d = tt
search_nodes-Distinct (n ∷ ns) src dsn d =
    ground (arith, search_nodes-Distinct ns src dsn d.1, lookup-search_nodes ns src dsn n.src)

pub init-Represents : Represents init []
unfolding init last_dsn
init-Represents = record { agrees = λ src. refl; distinct = tt }

-- The new list after a packet, when a node can be allocated.
abbrev nodes_after : Nodes → ℕ → ℕ → Bool → Nodes
nodes_after ns src dsn alloc =
    let (found, drop, ns') = search_nodes ns src dsn in remember found alloc src dsn ns'

lookup-nodes_after :
    (ns : Nodes) (src dsn other : ℕ)
    → lookup other (nodes_after ns src dsn true)
      ≡ (if src == other then some dsn else lookup other ns)
unfolding remember
lookup-nodes_after ns src dsn other =
    ground (arith, search_nodes_lem ns src dsn, lookup-search_nodes ns src dsn other)

nodes_after-Distinct :
    (ns : Nodes) (src dsn : ℕ) (alloc : Bool)
    → Distinct ns
    → Distinct (nodes_after ns src dsn alloc)
unfolding remember
nodes_after-Distinct ns src dsn alloc d = ground (
  arith,
  search_nodes_lem ns src dsn,
  search_nodes-Distinct ns src dsn d,
  lookup-search_nodes ns src dsn src,
)

-- One packet, when a node can be allocated: it is passed up exactly if the history has no
-- duplicate of it, and the list stands for the history with the packet in front.
pub rx_done-Represents :
    (ns : Nodes) (before : History) (buf : Buf) (len : ℕ)
    → Represents ns before
    → (ns' : Nodes) × (rx_done ns buf len true
        ≡ ok (ns', if is_duplicate before buf then [] else top_rx_done buf len ∷ []))
      × Represents ns' (buf ∷ before)
unfolding rx_done is_duplicate last_dsn
rx_done-Represents ns before buf len r =
    let src = get_src buf in
    let dsn = header_dsn buf in
    (
      nodes_after ns src dsn true,
      ground (arith, search_nodes_lem ns src dsn, r.agrees src),
      record {
        agrees = λ other. ground (arith, lookup-nodes_after ns src dsn other, r.agrees other);
        distinct = nodes_after-Distinct ns src dsn true r.distinct;
      },
    )

-- What the list knows, whether or not nodes could be allocated: an entry is never out of date.
pub record Remembers (ns : Nodes) (before : History) : Type 0 where
  pub current : (src : ℕ) → (lookup src ns ≡ none) ⊎ (lookup src ns ≡ last_dsn src before)
  pub distinct : Distinct ns

lookup-nodes_after_failed :
    (ns : Nodes) (src dsn other : ℕ)
    → lookup other (nodes_after ns src dsn false) ≡ (
        if src == other
        then (if is_known (lookup src ns) then some dsn else none)
        else lookup other ns)
unfolding remember
lookup-nodes_after_failed ns src dsn other =
    ground (arith, search_nodes_lem ns src dsn, lookup-search_nodes ns src dsn other)

nodes_after-current :
    (ns : Nodes) (before : History) (buf : Buf) (alloc : Bool)
    → Remembers ns before
    → (other : ℕ)
    → (lookup other (nodes_after ns (get_src buf) (header_dsn buf) alloc) ≡ none)
      ⊎ (lookup other (nodes_after ns (get_src buf) (header_dsn buf) alloc)
          ≡ last_dsn other (buf ∷ before))
unfolding last_dsn
nodes_after-current ns before buf true r other =
    ground (arith, lookup-nodes_after ns (get_src buf) (header_dsn buf) other, r.current other)
nodes_after-current ns before buf false r other =
    ground
      (arith, lookup-nodes_after_failed ns (get_src buf) (header_dsn buf) other, r.current other)

-- One packet, also when no node can be allocated: a packet that is not passed up is a duplicate of
-- the last packet of its source, and the list stays up to date.
pub rx_done-Remembers :
    (ns : Nodes) (before : History) (buf : Buf) (len : ℕ) (alloc : Bool)
    → Remembers ns before
    → (ns' : Nodes) × (es : List Effect) × (rx_done ns buf len alloc ≡ ok (ns', es))
      × ((es ≡ top_rx_done buf len ∷ []) ⊎ (es ≡ []) × (is_duplicate before buf ≡ true))
      × Remembers ns' (buf ∷ before)
unfolding rx_done is_duplicate
rx_done-Remembers ns before buf len alloc r =
    let src = get_src buf in
    let dsn = header_dsn buf in
    let drops = (search_nodes ns src dsn).1 in
    (
      nodes_after ns src dsn alloc,
      (if drops then [] else top_rx_done buf len ∷ []),
      ground arith,
      ground (arith, search_nodes_lem ns src dsn, r.current src),
      record {
        current = nodes_after-current ns before buf alloc r;
        distinct = nodes_after-Distinct ns src dsn alloc r.distinct;
      },
    )

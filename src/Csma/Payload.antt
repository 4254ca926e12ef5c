-- ===== src/Csma/Payload.antt =====
-- The packet that goes into the layer is the packet that comes out.
use linux_cc2520_driver.Prelude.{
  ℕ, ◌+◌, ◌≡◌, Option, none, some, List, [], length, take, memcpy, take-append, drop, arith,
}
use linux_cc2520_driver.Layer.{Effect}
use linux_cc2520_driver.Ledger.{World, sent, asked, fired, dequeued, answered}
use linux_cc2520_driver.Parcels.{Parcel, parcels, AllHold, InputHolds, inputs, post_all-counts}
use linux_cc2520_driver.Csma.{
  Csma, State, idle, tx_packet, timer_cb, wq, tx_done, rx_done, set_min_backoff, set_init_backoff,
  set_cong_backoff,
}
use linux_cc2520_driver.Csma.Completion.{Inv, load}
use linux_cc2520_driver.Csma.World.{
  Step, send, fire, work, finish, receive, configure_min, configure_init, configure_cong,
}

abbrev pub input : {w u : World Csma} → Step w u → Option Parcel
input (send buf len rand_num c es e eu) = some (buf, len)
input _ = none

abbrev pub effects : {w u : World Csma} → Step w u → List Effect
effects (send buf len rand_num c es e eu) = es
effects (fire clear rand_num c es g e eu) = es
effects (work c es g e eu) = es
effects (finish status c es g e eu) = es
effects (receive buf len c es e eu) = es
effects (configure_min b eu) = []
effects (configure_init b eu) = []
effects (configure_cong b eu) = []

-- The packet that a busy layer holds; an idle one agrees with any.
abbrev pub held : State → List ℕ → List ℕ → List ℕ
held idle packet mine = packet
held _ packet mine = mine

abbrev pub Holds : List ℕ → Csma → Type 0
Holds packet c = held c.csma_state packet (take c.cur_tx_len c.cur_tx_buf) ≡ packet

pub Holds-idle : (packet : List ℕ) (c : Csma) → load c.csma_state ≡ 0 → Holds packet c
Holds-idle packet c e = ground arith

pub Step-Holds :
    (packet : List ℕ) {w u : World Csma} (st : Step w u)
    → Inv w
    → Holds packet w.layer
    → InputHolds packet (input st)
    → Holds packet u.layer × AllHold packet (parcels (effects st))
unfolding tx_packet timer_cb wq tx_done rx_done set_min_backoff set_init_backoff set_cong_backoff
    memcpy
Step-Holds packet {w} (send buf len rand_num c es e eu) v h i =
    ground (arith, take-append len buf (drop len w.layer.cur_tx_buf))
Step-Holds packet (fire clear rand_num c es g e eu) v h i = ground arith
Step-Holds packet (work c es g e eu) v h i = ground arith
Step-Holds packet (finish status c es g e eu) v h i = ground arith
Step-Holds packet (receive buf len c es e eu) v h i = ground arith
Step-Holds packet (configure_min b eu) v h i = ground arith
Step-Holds packet (configure_init b eu) v h i = ground arith
Step-Holds packet (configure_cong b eu) v h i = ground arith

pub Step-counts :
    {w u : World Csma} (st : Step w u)
    → (sent u.ledger ≡ sent w.ledger + length (parcels (effects st)))
      × (u.ledger.accepted ≡ w.ledger.accepted + inputs (input st))
Step-counts {w} (send buf len rand_num c es e eu) =
    ground (arith, post_all-counts es (asked w.ledger))
Step-counts {w} (fire clear rand_num c es g e eu) =
    ground (arith, post_all-counts es (fired w.ledger))
Step-counts {w} (work c es g e eu) = ground (arith, post_all-counts es (dequeued w.ledger))
Step-counts {w} (finish status c es g e eu) = ground (arith, post_all-counts es (answered w.ledger))
Step-counts {w} (receive buf len c es e eu) = ground (arith, post_all-counts es w.ledger)
Step-counts (configure_min b eu) = ground arith
Step-counts (configure_init b eu) = ground arith
Step-counts (configure_cong b eu) = ground arith

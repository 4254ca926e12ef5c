-- ===== src/Lpl/Payload.antt =====
-- The packet that goes into the layer is the packet that comes out.
use linux_cc2520_driver.Prelude.{
  ℕ, ◌+◌, ◌≡◌, Option, none, some, List, [], length, take, memcpy, take-append, drop, arith,
}
use linux_cc2520_driver.Layer.{Effect}
use linux_cc2520_driver.Ledger.{World, sent, asked, called, fired, answered}
use linux_cc2520_driver.Parcels.{Parcel, parcels, AllHold, InputHolds, inputs, post_all-counts}
use linux_cc2520_driver.Lpl.{
  Lpl, State, idle, tx_calls, tx_starts, tx_done, rx_done, timer_cb, set_listen_length,
  set_wakeup_interval,
}
use linux_cc2520_driver.Lpl.Completion.{Inv, load}
use linux_cc2520_driver.Lpl.World.{
  Step, send, arm, fire, finish, receive, configure_window, configure_interval,
}

abbrev pub input : {w u : World Lpl} → Step w u → Option Parcel
input (send buf len l es b g e eu) = some (buf, len)
input _ = none

abbrev pub effects : {w u : World Lpl} → Step w u → List Effect
effects (send buf len l es b g e eu) = es
effects {w} (arm g eu) = tx_starts w.layer
effects (fire l es g e eu) = es
effects (finish status l es g e eu) = es
effects (receive buf len l es e eu) = es
effects (configure_window b eu) = []
effects (configure_interval b eu) = []

-- The packet that a busy layer holds; an idle one agrees with any.
abbrev pub held : State → List ℕ → List ℕ → List ℕ
held idle packet mine = packet
held _ packet mine = mine

abbrev pub Holds : List ℕ → Lpl → Type 0
Holds packet l = held l.lpl_state packet (take l.cur_tx_len l.cur_tx_buf) ≡ packet

pub Holds-idle : (packet : List ℕ) (l : Lpl) → load l.lpl_state ≡ 0 → Holds packet l
Holds-idle packet l e = ground arith

pub Holds-busy :
    (packet : List ℕ) (l : Lpl)
    → load l.lpl_state ≡ 1
    → Holds packet l
    → take l.cur_tx_len l.cur_tx_buf ≡ packet
Holds-busy packet l e h = ground (arith, h)

pub Step-Holds :
    (packet : List ℕ) {w u : World Lpl} (st : Step w u)
    → Inv w
    → Holds packet w.layer
    → InputHolds packet (input st)
    → Holds packet u.layer × AllHold packet (parcels (effects st))
unfolding tx_calls tx_starts timer_cb tx_done rx_done set_listen_length set_wakeup_interval memcpy
Step-Holds packet {w} (send buf len l es b g e eu) v h i =
    ground (arith, take-append len buf (drop len w.layer.cur_tx_buf))
Step-Holds packet (arm g eu) v h i = ground arith
Step-Holds packet (fire l es g e eu) v h i = ground arith
Step-Holds packet (finish status l es g e eu) v h i = ground arith
Step-Holds packet (receive buf len l es e eu) v h i = ground arith
Step-Holds packet (configure_window b eu) v h i = ground arith
Step-Holds packet (configure_interval b eu) v h i = ground arith

pub Step-counts :
    {w u : World Lpl} (st : Step w u)
    → (sent u.ledger ≡ sent w.ledger + length (parcels (effects st)))
      × (u.ledger.accepted ≡ w.ledger.accepted + inputs (input st))
unfolding tx_starts
Step-counts {w} (send buf len l es b g e eu) =
    ground (arith, post_all-counts es (called b (asked w.ledger)))
Step-counts (arm g eu) = ground arith
Step-counts {w} (fire l es g e eu) = ground (arith, post_all-counts es (fired w.ledger))
Step-counts {w} (finish status l es g e eu) = ground (arith, post_all-counts es (answered w.ledger))
Step-counts {w} (receive buf len l es e eu) = ground (arith, post_all-counts es w.ledger)
Step-counts (configure_window b eu) = ground arith
Step-counts (configure_interval b eu) = ground arith

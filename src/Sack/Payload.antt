-- ===== src/Sack/Payload.antt =====
-- The packet that goes into the layer is the packet that comes out, and all else that comes out is
-- an acknowledgement.
use linux_cc2520_driver.Prelude.{
  ℕ, ◌+◌, ◌≡◌, ◌⊎◌, Option, none, some, List, [], length, take, memcpy, take-append, drop, arith,
}
use linux_cc2520_driver.Layer.{Effect}
use linux_cc2520_driver.Ledger.{World, sent, asked, fired, answered}
use linux_cc2520_driver.Parcels.{Parcel, parcels, AllHold, InputHolds, inputs, post_all-counts}
use linux_cc2520_driver.Sack.{
  Sack, State, tx_ack, tx_packet, tx_done, rx_done, timer_cb, set_timeout,
}
use linux_cc2520_driver.Sack.Completion.{Inv, load, on_air}
use linux_cc2520_driver.Sack.World.{Step, send, fire, finish, receive, configure}

abbrev pub input : {w u : World Sack} → Step w u → Option Parcel
input (send buf len s es e eu) = some (buf, len)
input _ = none

abbrev pub effects : {w u : World Sack} → Step w u → List Effect
effects (send buf len s es e eu) = es
effects (fire s es g e eu) = es
effects (finish status s es g e eu) = es
effects (receive buf len s es e eu) = es
effects (configure t eu) = []

-- What the layer has for the radio: its acknowledgement while it sends one, else the packet.
abbrev pub chosen : State → List ℕ → List ℕ → List ℕ
chosen tx_ack packet ack = ack
chosen _ packet ack = packet

abbrev pub outgoing : List ℕ → Sack → List ℕ
outgoing packet s = chosen s.sack_state packet (take 6 s.ack_buf)

-- A layer with no packet from above has its acknowledgement for the radio, or nothing.
pub outgoing_other :
    (packet other : List ℕ) (s : Sack)
    → load s.sack_state ≡ 0
    → (outgoing other s ≡ outgoing packet s) ⊎ (on_air s.sack_state ≡ 0)
outgoing_other packet other s e = ground arith

pub Step-outgoing :
    (packet : List ℕ) {w u : World Sack} (st : Step w u)
    → InputHolds packet (input st)
    → AllHold (outgoing packet u.layer) (parcels (effects st))
unfolding tx_packet timer_cb tx_done rx_done set_timeout memcpy
Step-outgoing packet {w} (send buf len s es e eu) i =
    ground (arith, take-append len buf (drop len w.layer.cur_tx_buf))
Step-outgoing packet (fire s es g e eu) i = ground arith
Step-outgoing packet (finish status s es g e eu) i = ground arith
Step-outgoing packet (receive buf len s es e eu) i = ground arith
Step-outgoing packet (configure t eu) i = ground arith

-- A step keeps what the layer has for the radio, unless nothing from before is with the radio.
pub Step-steady :
    (packet : List ℕ) {w u : World Sack} (st : Step w u)
    → Inv w
    → (outgoing packet u.layer ≡ outgoing packet w.layer)
      ⊎ (u.ledger.sending ≡ length (parcels (effects st)))
unfolding tx_packet timer_cb tx_done rx_done set_timeout
Step-steady packet (send buf len s es e eu) v = ground arith
Step-steady packet (fire s es g e eu) v = ground arith
Step-steady packet (finish status s es g e eu) v = ground arith
Step-steady packet (receive buf len s es e eu) v = ground arith
Step-steady packet (configure t eu) v = ground arith

pub Step-counts :
    {w u : World Sack} (st : Step w u)
    → (sent u.ledger ≡ sent w.ledger + length (parcels (effects st)))
      × (u.ledger.accepted ≡ w.ledger.accepted + inputs (input st))
Step-counts {w} (send buf len s es e eu) = ground (arith, post_all-counts es (asked w.ledger))
Step-counts {w} (fire s es g e eu) = ground (arith, post_all-counts es (fired w.ledger))
Step-counts {w} (finish status s es g e eu) = ground (arith, post_all-counts es (answered w.ledger))
Step-counts {w} (receive buf len s es e eu) = ground (arith, post_all-counts es w.ledger)
Step-counts (configure t eu) = ground arith

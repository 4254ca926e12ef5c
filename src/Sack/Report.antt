-- ===== src/Sack/Report.antt =====
-- The statuses that the layer is told and tells.
use linux_cc2520_driver.Prelude.{
  ℕ, ◌+◌, ◌≡◌, Bool, true, false, ◌||◌, ◌&&◌, Bool-cases, inl, inr, Option, none, some, List, [],
  ◌++◌, Buf, memcpy, length, take, drop, take-length-append, leb, arith,
}
use linux_cc2520_driver.Ledger.{World, asked, fired, answered}
use linux_cc2520_driver.Parcels.{inputs, statuses, post_all-statuses, InputHolds}
use linux_cc2520_driver.Statuses.{
  heard, needs_ack, AllTrue, AllZero, needs_ack-take, is_ack_to-take,
}
use linux_cc2520_driver.Packet.{is_ack, is_ack_to}
use linux_cc2520_driver.Sack.{
  Sack, State, tx, tx_wait, is_tx_wait, tx_packet, tx_locked, tx_done, done_locked, rx_done,
  rx_locked, timer_cb, timer_locked, set_timeout,
}
use linux_cc2520_driver.Sack.Completion.{Inv, load}
use linux_cc2520_driver.Sack.Payload.{input, effects}
use linux_cc2520_driver.Sack.World.{Step, send, fire, finish, receive, configure}

abbrev pub told : {w u : World Sack} → Step w u → Option ℕ
told (finish status s es g e eu) = some status
told _ = none

pub Step-told :
    {w u : World Sack} (st : Step w u)
    → (u.ledger.answers ≡ w.ledger.answers + heard (told st))
      × (u.ledger.completed ≡ w.ledger.completed + length (statuses (effects st)))
Step-told {w} (send buf len s es e eu) = ground (arith, post_all-statuses es (asked w.ledger))
Step-told {w} (fire s es g e eu) = ground (arith, post_all-statuses es (fired w.ledger))
Step-told {w} (finish status s es g e eu) = ground (arith, post_all-statuses es (answered w.ledger))
Step-told {w} (receive buf len s es e eu) = ground (arith, post_all-statuses es w.ledger)
Step-told (configure b eu) = ground arith

-- A received frame, as it stands in the layer's buffer, is an acknowledgement with the packet's
-- sequence number, and the layer waits for one.
abbrev pub is_awaited : List ℕ → Sack → Buf → ℕ → Bool
is_awaited packet s buf len =
    let received = take len buf ++ drop len s.cur_rx_buf in
    is_tx_wait s.sack_state && (is_ack received && is_ack_to received packet)

abbrev pub arrives : List ℕ → {w u : World Sack} → Step w u → Bool
arrives packet {w} (receive buf len s es e eu) = is_awaited packet w.layer buf len
arrives packet _ = false

pub arrives-waits :
    (packet : List ℕ) {w u : World Sack} (st : Step w u)
    → arrives packet st ≡ true
    → load w.layer.sack_state ≡ 1
arrives-waits packet (send buf len s es e eu) b = absurd (ground (arith, b))
arrives-waits packet (fire s es g e eu) b = absurd (ground (arith, b))
arrives-waits packet (finish status s es g e eu) b = absurd (ground (arith, b))
arrives-waits packet (receive buf len s es e eu) b = ground (arith, b)
arrives-waits packet (configure t eu) b = absurd (ground (arith, b))

-- A layer with a packet from above has it at the start of its buffer.
abbrev pub kept : State → List ℕ → List ℕ → List ℕ
kept tx packet mine = mine
kept tx_wait packet mine = mine
kept _ packet mine = packet

abbrev pub Holds : List ℕ → Sack → Type 0
Holds packet s = kept s.sack_state packet (take (length packet) s.cur_tx_buf) ≡ packet

pub Holds-idle : (packet : List ℕ) (s : Sack) → load s.sack_state ≡ 0 → Holds packet s
Holds-idle packet s e = ground arith

pub Holds-busy :
    (packet : List ℕ) (s : Sack)
    → load s.sack_state ≡ 1
    → Holds packet s
    → take (length packet) s.cur_tx_buf ≡ packet
Holds-busy packet s e h = ground (arith, h)

pub Step-Holds :
    (packet : List ℕ) {w u : World Sack} (st : Step w u)
    → Holds packet w.layer
    → InputHolds packet (input st)
    → Holds packet u.layer
unfolding tx_packet tx_locked timer_cb timer_locked tx_done done_locked rx_done rx_locked
    set_timeout memcpy
Step-Holds packet {w} (send buf len s es e eu) h i =
    let same : take (length packet) (take len buf ++ drop len w.layer.cur_tx_buf) ≡ packet =
      rw (← i) (take-length-append (take len buf) (drop len w.layer.cur_tx_buf)) in
    ground (arith, same)
Step-Holds packet (fire s es g e eu) h i = ground (arith, h)
Step-Holds packet (finish status s es g e eu) h i = ground (arith, h)
Step-Holds packet (receive buf len s es e eu) h i = ground (arith, h)
Step-Holds packet (configure b eu) h i = ground (arith, h)

abbrev is_tx : State → Bool
is_tx tx = true
is_tx _ = false

-- Of a packet that asks for an acknowledgement the layer reports success only when it arrives.
pub Step-AllTrue :
    (packet : List ℕ) (acked : Bool) {w u : World Sack} (st : Step w u)
    → Inv w
    → Holds packet w.layer
    → AllTrue packet (arrives packet st || acked) (statuses (effects st))
unfolding tx_packet tx_locked timer_cb timer_locked tx_done done_locked rx_done rx_locked memcpy
Step-AllTrue packet acked (send buf len s es e eu) v h = ground arith
Step-AllTrue packet acked (fire s es g e eu) v h = ground arith
Step-AllTrue packet acked {w} (finish status s es g e eu) v h =
    elim (Bool-cases (is_tx w.layer.sack_state)) [
      | inl sends ↦ ground (
        arith,
        needs_ack-take (length packet) w.layer.cur_tx_buf packet
            (Holds-busy packet w.layer (ground (arith, sends)) h),
      )
      | inr acks ↦ ground (arith, acks)
    ]
Step-AllTrue packet acked {w} (receive buf len s es e eu) v h =
    let received = take len buf ++ drop len w.layer.cur_rx_buf in
    elim (Bool-cases (is_tx_wait w.layer.sack_state)) [
      | inl waits ↦ elim (Bool-cases (leb 4 (length packet))) [
        | inl long ↦ ground (
          arith,
          waits,
          is_ack_to-take (length packet) received w.layer.cur_tx_buf packet
              (Holds-busy packet w.layer (ground (arith, waits)) h) long,
        )
        | inr short ↦ ground (arith, short)
      ]
      | inr busy ↦ ground (arith, busy)
    ]
Step-AllTrue packet acked (configure b eu) v h = tt

-- A layer with no packet from above reports none.
pub Step-free :
    {w u : World Sack} (st : Step w u)
    → Inv w
    → load w.layer.sack_state ≡ 0
    → inputs (input st) ≡ 0
    → (statuses (effects st) ≡ []) × (load u.layer.sack_state ≡ 0)
unfolding tx_packet tx_locked timer_cb timer_locked tx_done done_locked rx_done rx_locked
    set_timeout
Step-free (send buf len s es e eu) v h n = absurd (omega (arith, n))
Step-free (fire s es g e eu) v h n = ground arith
Step-free (finish status s es g e eu) v h n = ground arith
Step-free (receive buf len s es e eu) v h n = ground arith
Step-free (configure b eu) v h n = ground arith

-- The awaited acknowledgement ends the wait with success.
pub Step-arrives :
    (packet : List ℕ) {w u : World Sack} (st : Step w u)
    → needs_ack packet ≡ true
    → Inv w
    → Holds packet w.layer
    → arrives packet st ≡ true
    → (load w.layer.sack_state ≡ 1)
      × AllZero (statuses (effects st))
      × (load u.layer.sack_state ≡ 0)
unfolding tx_packet tx_locked timer_cb timer_locked tx_done done_locked rx_done rx_locked memcpy
Step-arrives packet (send buf len s es e eu) a v h b = absurd (ground (arith, b))
Step-arrives packet (fire s es g e eu) a v h b = absurd (ground (arith, b))
Step-arrives packet (finish status s es g e eu) a v h b = absurd (ground (arith, b))
Step-arrives packet {w} (receive buf len s es e eu) a v h b =
    let received = take len buf ++ drop len w.layer.cur_rx_buf in
    let waits : is_tx_wait w.layer.sack_state ≡ true = ground (arith, b) in
    let long : leb 4 (length packet) ≡ true = ground (arith, a) in
    ground (
      arith,
      b,
      waits,
      is_ack_to-take (length packet) received w.layer.cur_tx_buf packet
          (Holds-busy packet w.layer (ground (arith, waits)) h) long,
    )
Step-arrives packet (configure t eu) a v h b = absurd (ground (arith, b))

-- ===== src/Statuses.antt =====
-- The statuses that calls of `tx_done` pass, as an observer of the calls between the layers sees them.
use linux_cc2520_driver.Prelude.{
  ℕ, ◌+◌, ◌≡◌, Bool, true, not, ◌||◌, Option, none, some, List, [], ◌∷◌, ◌++◌, get_or, take, length,
  ◌==◌, get_or-take, length-take, leb, leb→le, ◌⊎◌, inl, inr, Bool-cases, ◌&&◌, ◌≤◌, ◌<◌, arith,
}
use linux_cc2520_driver.Config.{tx_success, tx_failed, neg_u8}
use linux_cc2520_driver.Packet.{header_fcf, requires_ack_wait, header_dsn, is_ack_to}

-- The status that a step is called with, if it runs a completion, is the oldest of those on their way.
abbrev pub Heard : Option ℕ → List ℕ → List ℕ → Type 0
Heard none waiting rest = rest ≡ waiting
Heard (some status) waiting rest = waiting ≡ status ∷ rest

abbrev pub heard : Option ℕ → ℕ
heard none = 0
heard (some status) = 1

pub Heard-length :
    (o : Option ℕ) (waiting rest : List ℕ)
    → Heard o waiting rest
    → length waiting ≡ heard o + length rest
Heard-length none waiting rest e = rw e (omega arith)
Heard-length (some p) waiting rest e = rw e (omega arith)

-- A packet with a whole frame control field and sequence number that asks for an acknowledgement.
abbrev pub needs_ack : List ℕ → Bool
needs_ack packet = leb 4 (length packet) && requires_ack_wait packet

-- A report of success is true of the packet if it has been acknowledged or asks for nothing.
abbrev pub is_true : List ℕ → Bool → ℕ → Bool
is_true packet acked status = not (status == 0) || (not (needs_ack packet) || acked)

abbrev pub AllTrue : List ℕ → Bool → List ℕ → Type 0
AllTrue packet acked [] = Unit
AllTrue packet acked (s ∷ ss) = (is_true packet acked s ≡ true) × AllTrue packet acked ss

abbrev pub HeardTrue : List ℕ → Bool → Option ℕ → Type 0
HeardTrue packet acked none = Unit
HeardTrue packet acked (some s) = is_true packet acked s ≡ true

pub AllTrue-append :
    (packet : List ℕ) (acked : Bool) (ss ts : List ℕ)
    → AllTrue packet acked ss
    → AllTrue packet acked ts
    → AllTrue packet acked (ss ++ ts)
AllTrue-append packet acked [] ts h k = k
AllTrue-append packet acked (s ∷ ss) ts (e, h) k = (e, AllTrue-append packet acked ss ts h k)

pub AllTrue-empty :
    (packet : List ℕ) (acked : Bool) (ss : List ℕ) → length ss ≡ 0 → AllTrue packet acked ss
AllTrue-empty packet acked [] e = tt
AllTrue-empty packet acked (s ∷ ss) e = absurd (omega arith)

-- What is true stays true when the acknowledgement arrives.
pub AllTrue-acked :
    (packet : List ℕ) (acked now : Bool) (ss : List ℕ)
    → AllTrue packet acked ss
    → AllTrue packet (now || acked) ss
AllTrue-acked packet acked now [] h = tt
AllTrue-acked packet acked now (s ∷ ss) (e, h) =
    (ground (arith, e), AllTrue-acked packet acked now ss h)

pub Heard-AllTrue :
    (packet : List ℕ) (acked : Bool) (o : Option ℕ) (waiting rest : List ℕ)
    → Heard o waiting rest
    → AllTrue packet acked waiting
    → HeardTrue packet acked o × AllTrue packet acked rest
Heard-AllTrue packet acked none waiting rest e h = (tt, rw e h)
Heard-AllTrue packet acked (some s) waiting rest e h = rw e at h

-- The header test looks at the packet only, where a buffer begins with the packet.
pub needs_ack-take :
    (n : ℕ) (buf packet : List ℕ)
    → take n buf ≡ packet
    → needs_ack packet ≡ leb 4 (length packet) && requires_ack_wait buf
unfolding requires_ack_wait header_fcf
needs_ack-take n buf packet e = elim (Bool-cases (leb 4 (length packet))) [
  | inr short ↦ rw short
  | inl long ↦
      let long' : 4 ≤ length (take n buf) = rw e (leb→le 4 (length packet) long) in
      let n_long : 4 ≤ n = omega (arith, long', length-take n buf) in
      let one : get_or packet 1 0 ≡ get_or buf 1 0 =
        rw (← e) (get_or-take n 1 buf 0 (omega (arith, n_long))) in
      let two : get_or packet 2 0 ≡ get_or buf 2 0 =
        rw (← e) (get_or-take n 2 buf 0 (omega (arith, n_long))) in
      rw (long, one, two)
]

pub is_ack_to-take :
    (n : ℕ) (pending buf packet : List ℕ)
    → take n buf ≡ packet
    → leb 4 (length packet) ≡ true
    → is_ack_to pending packet ≡ is_ack_to pending buf
unfolding is_ack_to header_dsn
is_ack_to-take n pending buf packet e long =
    let long' : 4 ≤ length (take n buf) = rw e (leb→le 4 (length packet) long) in
    let n_long : 3 < n = omega (arith, long', length-take n buf) in
    let dsn : get_or packet 3 0 ≡ get_or buf 3 0 = rw (← e) (get_or-take n 3 buf 0 n_long) in rw dsn

-- Each status is success or -CC2520_TX_FAILED as a byte.
abbrev pub AllReports : List ℕ → Type 0
AllReports [] = Unit
AllReports (s ∷ ss) = ((s ≡ tx_success) ⊎ (s ≡ neg_u8 tx_failed)) × AllReports ss

pub AllReports-append : (ss ts : List ℕ) → AllReports ss → AllReports ts → AllReports (ss ++ ts)
AllReports-append [] ts h k = k
AllReports-append (s ∷ ss) ts (e, h) k = (e, AllReports-append ss ts h k)

pub Heard-AllReports :
    (o : Option ℕ) (waiting rest : List ℕ)
    → Heard o waiting rest
    → AllReports waiting
    → AllReports rest
Heard-AllReports none waiting rest e h = rw e h
Heard-AllReports (some s) waiting rest e h = (rw e at h).1

abbrev pub AllZero : List ℕ → Type 0
AllZero [] = Unit
AllZero (s ∷ ss) = (s ≡ tx_success) × AllZero ss

abbrev pub HeardZero : Option ℕ → Type 0
HeardZero none = Unit
HeardZero (some s) = s ≡ tx_success

pub AllZero-append : (ss ts : List ℕ) → AllZero ss → AllZero ts → AllZero (ss ++ ts)
AllZero-append [] ts h k = k
AllZero-append (s ∷ ss) ts (e, h) k = (e, AllZero-append ss ts h k)

pub AllZero-empty : (ss : List ℕ) → length ss ≡ 0 → AllZero ss
AllZero-empty [] e = tt
AllZero-empty (s ∷ ss) e = absurd (omega arith)

pub Heard-AllZero :
    (o : Option ℕ) (before rest : List ℕ)
    → Heard o before rest
    → AllZero before
    → HeardZero o × AllZero rest
Heard-AllZero none before rest e h = (tt, rw e h)
Heard-AllZero (some s) before rest e h = rw e at h

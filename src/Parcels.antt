-- ===== src/Parcels.antt =====
-- The bytes that a call of `tx` passes, as an observer of the calls between the layers sees them.
use linux_cc2520_driver.Prelude.{
  ℕ, ◌+◌, ◌≤◌, ◌≡◌, refl, Option, none, some, List, [], ◌∷◌, ◌++◌, Buf, length, take, arith,
}
use linux_cc2520_driver.Config.{pkt_buff_size}
use linux_cc2520_driver.Layer.{
  Effect, bottom_tx, top_tx_done, top_rx_done, start_timer, forward_timer, cancel_timer, queue_work,
  release_rx,
}
use linux_cc2520_driver.Ledger.{Ledger, post, post_all, sent}

-- The arguments of a call of `tx`, and the packet that they stand for.
abbrev pub Parcel : Type 0
Parcel = Buf × ℕ

abbrev pub content : Parcel → List ℕ
content (buf, len) = take len buf

-- The calls of `bottom->tx` among the calls of a handler.
abbrev pub parcels : List Effect → List Parcel
parcels [] = []
parcels (bottom_tx buf len ∷ es) = (buf, len) ∷ parcels es
parcels (_ ∷ es) = parcels es

abbrev pub AllHold : List ℕ → List Parcel → Type 0
AllHold packet [] = Unit
AllHold packet (p ∷ ps) = (content p ≡ packet) × AllHold packet ps

pub AllHold-append :
    (packet : List ℕ) (ps qs : List Parcel)
    → AllHold packet ps
    → AllHold packet qs
    → AllHold packet (ps ++ qs)
AllHold-append packet [] qs h k = k
AllHold-append packet (p ∷ ps) qs (e, h) k = (e, AllHold-append packet ps qs h k)

-- The call that a step runs, if it runs one, holds the packet.
abbrev pub InputHolds : List ℕ → Option Parcel → Type 0
InputHolds packet none = Unit
InputHolds packet (some p) = content p ≡ packet

-- It is the oldest of those that wait.
abbrev pub Taken : Option Parcel → List Parcel → List Parcel → Type 0
Taken none waiting rest = rest ≡ waiting
Taken (some p) waiting rest = waiting ≡ p ∷ rest

abbrev pub inputs : Option Parcel → ℕ
inputs none = 0
inputs (some p) = 1

-- A handler's calls send what is among them and take nothing.
pub post_all-counts :
    (es : List Effect) (l : Ledger)
    → (sent (post_all es l) ≡ sent l + length (parcels es))
      × ((post_all es l).accepted ≡ l.accepted)
post_all-counts [] l = (omega arith, refl)
post_all-counts (bottom_tx buf len ∷ es) l =
    let (n, m) = post_all-counts es (post (bottom_tx buf len) l) in (omega (arith, n), m)
post_all-counts (top_tx_done s ∷ es) l = post_all-counts es (post (top_tx_done s) l)
post_all-counts (top_rx_done b n ∷ es) l = post_all-counts es (post (top_rx_done b n) l)
post_all-counts (start_timer n ∷ es) l = post_all-counts es (post (start_timer n) l)
post_all-counts (forward_timer n ∷ es) l = post_all-counts es (post (forward_timer n) l)
post_all-counts (cancel_timer ∷ es) l = post_all-counts es (post cancel_timer l)
post_all-counts (queue_work ∷ es) l = post_all-counts es (post queue_work l)
post_all-counts (release_rx ∷ es) l = post_all-counts es (post release_rx l)

pub Taken-AllHold :
    (packet : List ℕ) (i : Option Parcel) (waiting rest : List Parcel)
    → Taken i waiting rest
    → AllHold packet waiting
    → InputHolds packet i × AllHold packet rest
Taken-AllHold packet none waiting rest e h = (tt, rw e h)
Taken-AllHold packet (some p) waiting rest e h = rw e at h

pub Taken-length :
    (i : Option Parcel) (waiting rest : List Parcel)
    → Taken i waiting rest
    → length waiting ≡ inputs i + length rest
Taken-length none waiting rest e = rw e (omega arith)
Taken-length (some p) waiting rest e = rw e (omega arith)

pub AllHold-empty : (packet : List ℕ) (ps : List Parcel) → length ps ≡ 0 → AllHold packet ps
AllHold-empty packet [] e = tt
AllHold-empty packet (p ∷ ps) e = absurd (omega arith)

-- A packet that lies in its allocation and fits the buffers of the layers.
abbrev pub Fits : Parcel → Type 0
Fits (buf, len) = (len ≤ length buf) × (len ≤ pkt_buff_size)

abbrev pub AllFit : List Parcel → Type 0
AllFit [] = Unit
AllFit (p ∷ ps) = Fits p × AllFit ps

pub AllFit-append : (ps qs : List Parcel) → AllFit ps → AllFit qs → AllFit (ps ++ qs)
AllFit-append [] qs h k = k
AllFit-append (p ∷ ps) qs (e, h) k = (e, AllFit-append ps qs h k)

pub Taken-AllFit :
    (i : Option Parcel) (waiting rest : List Parcel)
    → Taken i waiting rest
    → AllFit waiting
    → AllFit rest
Taken-AllFit none waiting rest e h = rw e h
Taken-AllFit (some p) waiting rest e h = (rw e at h).1

-- The calls of `top->tx_done` among the calls of a handler.
abbrev pub statuses : List Effect → List ℕ
statuses [] = []
statuses (top_tx_done status ∷ es) = status ∷ statuses es
statuses (_ ∷ es) = statuses es

-- A handler's calls report what is among them and run no completion.
pub post_all-statuses :
    (es : List Effect) (l : Ledger)
    → ((post_all es l).completed ≡ l.completed + length (statuses es))
      × ((post_all es l).answers ≡ l.answers)
post_all-statuses [] l = (omega arith, refl)
post_all-statuses (bottom_tx buf len ∷ es) l = post_all-statuses es (post (bottom_tx buf len) l)
post_all-statuses (top_tx_done s ∷ es) l =
    let (n, m) = post_all-statuses es (post (top_tx_done s) l) in (omega (arith, n), m)
post_all-statuses (top_rx_done b n ∷ es) l = post_all-statuses es (post (top_rx_done b n) l)
post_all-statuses (start_timer n ∷ es) l = post_all-statuses es (post (start_timer n) l)
post_all-statuses (forward_timer n ∷ es) l = post_all-statuses es (post (forward_timer n) l)
post_all-statuses (cancel_timer ∷ es) l = post_all-statuses es (post cancel_timer l)
post_all-statuses (queue_work ∷ es) l = post_all-statuses es (post queue_work l)
post_all-statuses (release_rx ∷ es) l = post_all-statuses es (post release_rx l)

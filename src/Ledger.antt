-- ===== src/Ledger.antt =====
-- The account that a layer keeps with its neighbours and its timer: what has been asked of it, what
-- it has answered, and what it still waits for. `World` pairs a layer's variables with it.
use linux_cc2520_driver.Prelude.{ℕ, ◌+◌, ◌-◌, Bool, true, false, List, [], ◌∷◌, if◌then◌else◌}
use linux_cc2520_driver.Layer.{
  Effect, bottom_tx, top_tx_done, top_rx_done, start_timer, forward_timer, cancel_timer, queue_work,
  release_rx,
}

pub record Ledger : Type 0 where
  -- the timer is running
  pub armed : Bool
  -- the work item is queued
  pub queued : Bool
  -- a call of the layer's `tx` has yet to start the timer
  pub starting : Bool
  -- calls of `bottom->tx` that no `tx_done` from below has answered
  pub sending : ℕ
  -- calls of the layer's `tx_done` from below
  pub answers : ℕ
  -- calls of the layer's `tx` from above
  pub accepted : ℕ
  -- calls of `top->tx_done`
  pub completed : ℕ

abbrev pub empty_ledger : Ledger
empty_ledger = record {
  armed = false;
  queued = false;
  starting = false;
  sending = 0;
  answers = 0;
  accepted = 0;
  completed = 0;
}

abbrev pub post : Effect → Ledger → Ledger
post (bottom_tx buf len) l = record l { sending = l.sending + 1 }
post (top_tx_done status) l = record l { completed = l.completed + 1 }
post (top_rx_done buf len) l = l
post (start_timer ns) l = record l { armed = true }
post (forward_timer ns) l = record l { armed = true }
post cancel_timer l = record l { armed = false }
post queue_work l = record l { queued = true }
post release_rx l = l

abbrev pub post_all : List Effect → Ledger → Ledger
post_all [] l = l
post_all (e ∷ es) l = post_all es (post e l)

-- What happens to the layer: the account before its handler's calls are entered.
abbrev pub asked : Ledger → Ledger
asked l = record l { accepted = l.accepted + 1 }

-- A call of `tx` after its call of the layer below, and whether it has yet to start the timer.
abbrev pub called : Bool → Ledger → Ledger
called to_start l = record l { starting = to_start }

abbrev pub fired : Ledger → Ledger
fired l = record l { armed = false }

abbrev pub dequeued : Ledger → Ledger
dequeued l = record l { queued = false }

abbrev pub answered : Ledger → Ledger
answered l = record l { sending = l.sending - 1; answers = l.answers + 1 }

-- All calls of `bottom->tx`.
abbrev pub sent : Ledger → ℕ
sent l = l.sending + l.answers

abbrev pub bit : Bool → ℕ
bit b = if b then 1 else 0

-- Everything the layer waits for.
abbrev pub waiting : Ledger → ℕ
waiting l = bit l.armed + bit l.queued + l.sending

pub record World (S : Type 0) : Type 0 where
  pub layer : S
  pub ledger : Ledger

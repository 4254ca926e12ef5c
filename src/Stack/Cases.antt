-- ===== src/Stack/Cases.antt =====
-- What a queue, a state or an account can be, by cases.
use linux_cc2520_driver.Prelude.{
  ℕ, ◌+◌, ◌<◌, ◌≡◌, ◌⊎◌, inl, inr, refl, true, false, List, [], Bool, ◌∷◌, length, arith,
}
use linux_cc2520_driver.Parcels.{Parcel, Fits, AllFit}
use linux_cc2520_driver.Sack
use linux_cc2520_driver.Csma
use linux_cc2520_driver.Lpl
use linux_cc2520_driver.Radio.State
use linux_cc2520_driver.Ledger.{bit}
use linux_cc2520_driver.Radio.TxCompletion as RadioTx
use linux_cc2520_driver.Csma.Completion as CsmaTx
use linux_cc2520_driver.Lpl.Completion as LplTx
use linux_cc2520_driver.Sack.Completion as SackTx

-- The calls of `tx` on their way to a layer: none, or an oldest one, which fits the buffers.
pub queue_cases :
    (ps : List Parcel)
    → AllFit ps
    → (length ps ≡ 0)
      ⊎ ((p : Parcel) × (rest : List Parcel) × (ps ≡ p ∷ rest) × Fits p × (0 < length ps))
queue_cases [] v = inl refl
queue_cases (p ∷ rest) v = inr (p, rest, refl, v.0, omega arith)

pub radio_cases :
    (st : State.State)
    → RadioTx.is_resting st ≡ true
    → ((st ≡ State.idle) × (RadioTx.load st ≡ 0)) ⊎ (RadioTx.load st ≡ 1)
radio_cases State.idle e = inl (refl, refl)
radio_cases State.config e = absurd (ground (arith, e))
radio_cases _ e = inr (ground (arith, e))

pub sack_cases :
    (st : Sack.State)
    → ((st ≡ Sack.idle) × (SackTx.load st ≡ 0))
      ⊎ ((Sack.is_tx_wait st ≡ true) ⊎ (SackTx.on_air st ≡ 1))
sack_cases Sack.idle = inl (refl, refl)
sack_cases Sack.tx_wait = inr (inl refl)
sack_cases Sack.tx = inr (inr refl)
sack_cases Sack.tx_ack = inr (inr refl)

pub csma_cases :
    (st : Csma.State) → ((st ≡ Csma.idle) × (CsmaTx.load st ≡ 0)) ⊎ (CsmaTx.load st ≡ 1)
csma_cases Csma.idle = inl (refl, refl)
csma_cases _ = inr refl

pub lpl_cases : (st : Lpl.State) → (LplTx.load st ≡ 0) ⊎ (LplTx.load st ≡ 1)
lpl_cases Lpl.idle = inl refl
lpl_cases _ = inr refl

-- A busy csma.c waits for its timer, for its work, or for the layer below.
pub waiting_cases :
    (armed queued : Bool) (sending : ℕ)
    → bit armed + bit queued + sending ≡ 1
    → (armed ≡ true) ⊎ ((queued ≡ true) ⊎ (sending ≡ 1))
waiting_cases true queued sending e = inl refl
waiting_cases false true sending e = inr (inl refl)
waiting_cases false false sending e = inr (inr (omega (arith, e)))

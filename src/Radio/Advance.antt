-- ===== src/Radio/Advance.antt =====
-- The steps that run what waits for the layer, its buffer, and how far it is from rest.
use linux_cc2520_driver.Prelude.{
  ℕ, ◌+◌, ◌*◌, ◌≤◌, ◌≡◌, ◌⊎◌, inl, inr, refl, Bool, true, false, Option, none, some, Buf, length,
  length-copy, memcpy, memcpy-ok, is_ok-ok, arith,
}
use linux_cc2520_driver.Config.{pkt_buff_size}
use linux_cc2520_driver.Parcels.{inputs, Fits}
use linux_cc2520_driver.Radio.State.{
  Radio, State, idle, tx_spi_done, TxCallback, continue_tx_check, continue_tx, complete_flush_tx,
}
use linux_cc2520_driver.Radio.Config.{start, on, off}
use linux_cc2520_driver.Radio.Tx.{tx_packet, tx_check, tx_written, tx_flushed, sfd_occurred}
use linux_cc2520_driver.Radio.TxWorld.{
  TxWorld, settle, spi_through, Step, send, check, written, flushed, sfd, starts, turns_on,
  turns_off,
}
use linux_cc2520_driver.Radio.TxCompletion.{Inv, load, is_some, wants_spi, is_resting}
use linux_cc2520_driver.Radio.Payload.{input}

abbrev pub IsSized : Radio → Type 0
IsSized r = length r.tx_buf_r ≡ pkt_buff_size

pub Step-IsSized :
    {w u : TxWorld} (st : Step w u)
    → IsSized w.radio
    → IsSized u.radio × (w.completed ≤ u.completed)
unfolding tx_packet tx_check tx_written tx_flushed sfd_occurred start on off memcpy
Step-IsSized {w} (send buf len r es e eu) v = ground (arith, length-copy w.radio.tx_buf_r buf len)
Step-IsSized (check fifo r es g e eu) v = ground arith
Step-IsSized (written x r es g e eu) v = ground arith
Step-IsSized (flushed r es g e eu) v = ground arith
Step-IsSized (sfd t high r es e eu) v = ground arith
Step-IsSized (starts r es e eu) v = ground arith
Step-IsSized (turns_on r es e eu) v = ground arith
Step-IsSized (turns_off r es e eu) v = ground arith

abbrev pub is_spi_done : State → Bool
is_spi_done tx_spi_done = true
is_spi_done _ = false

-- The step runs a call, the completion of the SPI message, or the end of a frame that is written.
abbrev pub is_progress : {w u : TxWorld} → Step w u → Bool
is_progress (send buf len r es e eu) = true
is_progress (check fifo r es g e eu) = true
is_progress (written x r es g e eu) = true
is_progress (flushed r es g e eu) = true
is_progress {w} (sfd t false r es e eu) = is_spi_done w.radio.radio_state
is_progress _ = false

-- How far the transmit engine is from rest.
abbrev cost_of : Option TxCallback → State → ℕ
cost_of (some continue_tx_check) st = 5
cost_of (some continue_tx) st = 4
cost_of (some complete_flush_tx) st = 3
cost_of none st = 2 * load st

abbrev pub cost : TxWorld → ℕ
cost w = cost_of w.spi w.radio.radio_state

pub cost-load : (w : TxWorld) → Inv w → cost w ≤ 5 * load w.radio.radio_state
cost-load w i = ground arith

pub Step-cost :
    {w u : TxWorld} (st : Step w u)
    → Inv w
    → is_progress st ≡ true
    → cost u + u.completed + 1 ≤ cost w + w.completed + 6 * inputs (input st)
unfolding tx_packet tx_check tx_written tx_flushed sfd_occurred start on off
Step-cost (send buf len r es e eu) v p = ground arith
Step-cost (check fifo r es g e eu) v p = ground arith
Step-cost (written x r es g e eu) v p = ground arith
Step-cost (flushed r es g e eu) v p = ground arith
Step-cost (sfd t high r es e eu) v p = ground (arith, p)
Step-cost (starts r es e eu) v p = absurd (ground (arith, p))
Step-cost (turns_on r es e eu) v p = absurd (ground (arith, p))
Step-cost (turns_off r es e eu) v p = absurd (ground (arith, p))

pub send_can :
    (w : TxWorld) (buf : Buf) (len : ℕ)
    → w.radio.radio_state ≡ idle
    → IsSized w.radio
    → Fits (buf, len)
    → (u : TxWorld) × (st : Step w u) × (input st ≡ some (buf, len)) × (is_progress st ≡ true)
unfolding tx_packet
send_can w buf len free v f =
    let (x, e) =
      is_ok-ok (tx_packet w.radio buf len) (ground (arith, memcpy-ok w.radio.tx_buf_r buf len)) in
    (
      settle (record w { accepted = w.accepted + 1 }) x.0 x.1,
      send buf len x.0 x.1 e refl,
      refl,
      refl,
    )

spi_can :
    (w : TxWorld) (cb : TxCallback)
    → w.spi ≡ some cb
    → (u : TxWorld) × (st : Step w u) × (input st ≡ none) × (is_progress st ≡ true)
unfolding tx_check tx_written tx_flushed
spi_can w continue_tx_check g =
    let (x, e) = is_ok-ok (tx_check w.radio false) refl in
    (settle (spi_through w) x.0 x.1, check false x.0 x.1 g e refl, refl, refl)
spi_can w continue_tx g =
    let (x, e) = is_ok-ok (tx_written w.radio 0) (ground arith) in
    (settle (spi_through w) x.0 x.1, written 0 x.0 x.1 g e refl, refl, refl)
spi_can w complete_flush_tx g =
    let (x, e) = is_ok-ok (tx_flushed w.radio) refl in
    (settle (spi_through w) x.0 x.1, flushed x.0 x.1 g e refl, refl, refl)

-- A radio that transmits waits for the completion of an SPI message, or for the end of the frame.
waits :
    (spi : Option TxCallback) (st : State)
    → is_some spi ≡ wants_spi st
    → is_resting st ≡ true
    → load st ≡ 1
    → ((cb : TxCallback) × (spi ≡ some cb)) ⊎ (st ≡ tx_spi_done)
waits (some cb) st a b c = inl (cb, refl)
waits none st a b c = inr (ground arith)

pub transmit_can :
    (w : TxWorld)
    → Inv w
    → load w.radio.radio_state ≡ 1
    → (u : TxWorld) × (st : Step w u) × (input st ≡ none) × (is_progress st ≡ true)
unfolding sfd_occurred
transmit_can w v b = elim (waits w.spi w.radio.radio_state v.spi_under_way v.resting b) [
  | inl (cb, g) ↦ spi_can w cb g
  | inr done ↦
      let (x, e) = is_ok-ok (sfd_occurred w.radio 0 false) (ground arith) in
      (settle w x.0 x.1, sfd 0 false x.0 x.1 e refl, refl, rw done refl)
]

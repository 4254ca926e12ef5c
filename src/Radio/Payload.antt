-- ===== src/Radio/Payload.antt =====
-- The packet that the radio has been given is the one that it sends.
use linux_cc2520_driver.Prelude.{
  ℕ, ◌+◌, ◌*◌, ◌≤◌, length-copy, ◌≡◌, ◌⊎◌, inl, inr, Option, none, some, List, length, take, memcpy,
  take-append, drop, arith,
}
use linux_cc2520_driver.Parcels.{Parcel, AllHold, AllHold-empty, InputHolds, inputs}
use linux_cc2520_driver.Radio.State.{Radio, State, idle, config}
use linux_cc2520_driver.Radio.Config.{start, on, off}
use linux_cc2520_driver.Radio.Tx.{tx_packet, tx_check, tx_written, tx_flushed, sfd_occurred}
use linux_cc2520_driver.Radio.TxWorld.{
  TxWorld, Step, send, check, written, flushed, sfd, starts, turns_on, turns_off,
}
use linux_cc2520_driver.Radio.TxCompletion.{Inv, load}

abbrev pub input : {w u : TxWorld} → Step w u → Option Parcel
input (send buf len r es e eu) = some (buf, len)
input _ = none

-- The packet of a radio that transmits; any other radio agrees with any.
abbrev pub held : State → List ℕ → List ℕ → List ℕ
held idle packet mine = packet
held config packet mine = packet
held _ packet mine = mine

abbrev pub Holds : List ℕ → Radio → Type 0
Holds packet r = held r.radio_state packet (take r.tx_buf_r_len r.tx_buf_r) ≡ packet

-- Another packet, or a radio and a way to it that hold none.
pub Holds-other :
    (old new : List ℕ) (waiting : List Parcel) (r : Radio)
    → (new ≡ old) ⊎ ((length waiting ≡ 0) × (load r.radio_state ≡ 0))
    → AllHold old waiting
    → Holds old r
    → AllHold new waiting × Holds new r
Holds-other old new waiting r (inl e) h k = (rw e h, rw e k)
Holds-other old new waiting r (inr (e, f)) h k = (AllHold-empty new waiting e, ground arith)

pub Holds-busy :
    (packet : List ℕ) (r : Radio)
    → load r.radio_state ≡ 1
    → Holds packet r
    → take r.tx_buf_r_len r.tx_buf_r ≡ packet
Holds-busy packet r e h = ground arith

pub Step-Holds :
    (packet : List ℕ) {w u : TxWorld} (st : Step w u)
    → Inv w
    → Holds packet w.radio
    → InputHolds packet (input st)
    → Holds packet u.radio
unfolding tx_packet tx_check tx_written tx_flushed sfd_occurred start on off memcpy
Step-Holds packet {w} (send buf len r es e eu) v h i =
    ground (arith, take-append len buf (drop len w.radio.tx_buf_r))
Step-Holds packet (check fifo r es g e eu) v h i = ground arith
Step-Holds packet (written x r es g e eu) v h i = ground arith
Step-Holds packet (flushed r es g e eu) v h i = ground arith
Step-Holds packet (sfd t high r es e eu) v h i = ground arith
Step-Holds packet (starts r es e eu) v h i = ground arith
Step-Holds packet (turns_on r es e eu) v h i = ground arith
Step-Holds packet (turns_off r es e eu) v h i = ground arith

pub Step-counts : {w u : TxWorld} (st : Step w u) → u.accepted ≡ w.accepted + inputs (input st)
unfolding tx_packet tx_check tx_written tx_flushed sfd_occurred start on off
Step-counts (send buf len r es e eu) = ground arith
Step-counts (check fifo r es g e eu) = ground arith
Step-counts (written x r es g e eu) = ground arith
Step-counts (flushed r es g e eu) = ground arith
Step-counts (sfd t high r es e eu) = ground arith
Step-counts (starts r es e eu) = ground arith
Step-counts (turns_on r es e eu) = ground arith
Step-counts (turns_off r es e eu) = ground arith

-- The packet of a radio that transmits lies in its buffer.
abbrev pub Fits : Radio → Type 0
Fits r = load r.radio_state * r.tx_buf_r_len ≤ length r.tx_buf_r

pub Step-Fits : {w u : TxWorld} (st : Step w u) → Inv w → Fits w.radio → Fits u.radio
unfolding tx_packet tx_check tx_written tx_flushed sfd_occurred start on off memcpy
Step-Fits {w} (send buf len r es e eu) v h = ground (arith, length-copy w.radio.tx_buf_r buf len)
Step-Fits (check fifo r es g e eu) v h = ground arith
Step-Fits (written x r es g e eu) v h = ground arith
Step-Fits (flushed r es g e eu) v h = ground arith
Step-Fits (sfd t high r es e eu) v h = ground arith
Step-Fits (starts r es e eu) v h = ground arith
Step-Fits (turns_on r es e eu) v h = ground arith
Step-Fits (turns_off r es e eu) v h = ground arith

-- ===== src/Allocation/Leaks.antt =====
-- What stays allocated.
use linux_cc2520_driver.Prelude.{
  ◌≡◌, Bool, true, not, ◌&&◌, List, [], ◌∷◌, ◌++◌, ok, if◌then◌else◌, arith,
}
use linux_cc2520_driver.Allocation.{
  Variable, radio_tx_buf, radio_rx_buf, radio_rx_out_buf, radio_rx_in_buf, radio_tx_buf_r,
  radio_rx_buf_r, lpl_cur_tx_buf, sack_ack_buf, sack_cur_tx_buf, sack_cur_rx_buf, csma_cur_tx_buf,
  csma_wq, Memory, nothing, radio_init, radio_free, lpl_init, lpl_free, sack_init, sack_free,
  csma_init, csma_free, load_layers,
}

abbrev pub works : (Variable → Bool) → List Variable → Bool
works fails [] = true
works fails (v ∷ vs) = not (fails v) && works fails vs

abbrev pub radio_variables : List Variable
radio_variables =
    radio_rx_buf_r ∷ radio_tx_buf_r ∷ radio_rx_in_buf ∷ radio_rx_out_buf ∷ radio_rx_buf
    ∷ radio_tx_buf ∷ []

abbrev pub sack_variables : List Variable
sack_variables = sack_cur_rx_buf ∷ sack_cur_tx_buf ∷ sack_ack_buf ∷ []

abbrev pub all_variables : List Variable
all_variables = csma_wq ∷ csma_cur_tx_buf ∷ (sack_variables ++ lpl_cur_tx_buf ∷ radio_variables)

-- Whether the layers below csma.c can be initialised
abbrev pub below_works : (Variable → Bool) → Bool
below_works fails = works fails (sack_variables ++ lpl_cur_tx_buf ∷ radio_variables)

abbrev pub loaded : (Variable → Bool) → Memory
loaded fails =
    if works fails all_variables
    then record { live = all_variables; set = all_variables }
    else if below_works fails
    then record { live = sack_cur_rx_buf ∷ []; set = sack_variables }
    else nothing

-- Whatever allocations fail in the layers of a module that has just been loaded: the layers' part of
-- the load returns, and never releases what is not allocated; it succeeds exactly if all of them
-- succeed, and then all are held; it fails with nothing held, unless sack.c had been initialised: then
-- its `cur_rx_buf` stays allocated.
pub load_layers-leaks :
    (fails : Variable → Bool)
    → (m : Memory) × (load_layers fails nothing ≡ ok (works fails all_variables, m))
      × (m.live ≡ (
          if works fails all_variables
          then all_variables
          else if below_works fails
          then sack_cur_rx_buf ∷ []
          else []))
unfolding load_layers radio_init radio_free lpl_init lpl_free sack_init sack_free csma_init
    csma_free
load_layers-leaks fails = (loaded fails, ground arith, ground arith)

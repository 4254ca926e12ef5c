-- ===== src/Csma/Toggle.antt =====
-- Switching CSMA off while a packet is under way.
use linux_cc2520_driver.Prelude.{ℕ, ◌≡◌, ◌≢◌, refl, true, false, [], ◌∷◌, Buf, ok, arith}
use linux_cc2520_driver.Layer.{top_tx_done}
use linux_cc2520_driver.Csma.{Csma, idle, tx_packet, tx_done, set_enabled}

-- If CSMA is switched off before a packet under way is completed from below and on again after it,
-- the completion is passed up but the layer is not idle: it refuses the next packet, with nothing
-- pending that could make it idle.
pub csma_off_strands :
    (c : Csma) (status : ℕ) (buf : Buf) (len rand_num : ℕ)
    → c.csma_state ≢ idle
    → (off : Csma) × (tx_done (set_enabled c false) status ≡ ok (off, top_tx_done status ∷ []))
      × (tx_packet (set_enabled off true) buf len rand_num
          ≡ ok (set_enabled off true, top_tx_done 255 ∷ []))
      × ((set_enabled off true).csma_state ≡ c.csma_state)
unfolding tx_done tx_packet set_enabled
csma_off_strands c status buf len rand_num busy =
    (record c { csma_enabled = false }, refl, ground arith, refl)

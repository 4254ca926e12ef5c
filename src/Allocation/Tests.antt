-- ===== src/Allocation/Tests.antt =====
-- Failed loads, and what releasing everything leaves.
use linux_cc2520_driver.Prelude.{◌≡◌, Bool, true, false, [], ◌∷◌, refl, Outcome, ok, ◌>>=◌}
use linux_cc2520_driver.Allocation.{
  Variable, csma_wq, sack_cur_rx_buf, Memory, nothing, load_layers, radio_free, lpl_free, sack_free,
  csma_free,
}
use linux_cc2520_driver.Allocation.Leaks.{all_variables, load_layers-leaks}

-- csma.c cannot have its work queue.
abbrev no_queue : Variable → Bool
no_queue csma_wq = true
no_queue _ = false

load_layers-leaks_example :
    (m : Memory) × (load_layers no_queue nothing ≡ ok (false, m)) × (m.live ≡ sack_cur_rx_buf ∷ [])
load_layers-leaks_example = load_layers-leaks no_queue

-- All layers' `free`, in the reverse order of their `init`.
abbrev free_layers : Memory → Outcome Memory
free_layers m = do a ← csma_free m; b ← sack_free a; c ← lpl_free b; radio_free c

-- `cur_rx_buf` of sack.c has no `kfree`.
left_over :
    (m : Memory) × (free_layers (record { live = all_variables; set = all_variables }) ≡ ok m)
    × (m.live ≡ sack_cur_rx_buf ∷ [])
unfolding radio_free lpl_free sack_free csma_free
left_over = (_, refl, refl)

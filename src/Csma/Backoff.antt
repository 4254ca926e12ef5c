-- ===== src/Csma/Backoff.antt =====
-- The backoff that `cc2520_csma_get_backoff` draws.
use linux_cc2520_driver.Prelude.{ℕ, ◌+◌, ◌-◌, ◌%◌, ◌^◌, ◌≤◌, ◌<◌, ◌≡◌, ok, fault, arith}
use linux_cc2520_driver.Csma.{get_backoff}

-- For positive `int` bounds in order, every random number gives a backoff in `[min, max)`.
pub get_backoff-bounds :
    (min max rand_num : ℕ)
    → min < max
    → max < 2 ^ 31
    → (b : ℕ) × (get_backoff min max rand_num ≡ ok b) × (min ≤ b) × (b < max)
unfolding get_backoff
get_backoff-bounds min max rand_num h k =
    let span : (max + 2 ^ 32 - min) % 2 ^ 32 ≡ max - min = omega arith in
    let below : rand_num % (max - min) < max - min = omega arith in
    (min + rand_num % (max - min), rw span (ground arith), omega arith, omega arith)

-- Equal bounds divide by zero, whatever the random number.
pub get_backoff-fault : (b rand_num : ℕ) → get_backoff b b rand_num ≡ fault
unfolding get_backoff
get_backoff-fault b rand_num = ground arith

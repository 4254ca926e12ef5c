-- ===== src/Device/Late.antt =====
-- A write that reads `tx_result` after it has given up `tx_sem`, with whatever the driver does in between.
use linux_cc2520_driver.Prelude.{
  ℕ, ◌-◌, ◌≡◌, refl, sym, ap, ◌∙◌, List, [], ◌∷◌, ◌++◌, ok, ◌==◌, if◌then◌else◌, arith,
}
use linux_cc2520_driver.Device.{
  Device, value, tx_done, rx_done, write_begin, write_locked, write_end, write_wakes, write_returns,
}
use linux_cc2520_driver.Device.World.{DeviceWorld, Step, begins, completes, ends, receives}

-- The completion of a step.
abbrev pub told : {w u : DeviceWorld} → Step w u → List ℕ
told (completes status g eu) = status ∷ []
told _ = []

-- Steps of the device, and the statuses of the completions among them.
pub data Meanwhile (w : DeviceWorld) : DeviceWorld → List ℕ → Type 0 where
  here : Meanwhile w w []
  next :
      {u v : DeviceWorld} {statuses : List ℕ}
      → Meanwhile w u statuses
      → (st : Step u v) → Meanwhile w v (statuses ++ told st)

abbrev pub last : ℕ → List ℕ → ℕ
last x [] = x
last x (y ∷ ys) = last y ys

last-append : (x : ℕ) (xs ys : List ℕ) → last x (xs ++ ys) ≡ last (last x xs) ys
last-append x [] ys = refl
last-append x (y ∷ xs) ys = last-append y xs ys

Step-result :
    {w u : DeviceWorld} (st : Step w u) → u.device.tx_result ≡ last w.device.tx_result (told st)
unfolding write_begin write_locked tx_done write_end rx_done
Step-result (begins nonblock interrupted user len d how es e eu) = ground arith
Step-result (completes status g eu) = ground arith
Step-result (ends n d r g e eu) = ground arith
Step-result (receives buf len d e eu) = ground arith

Meanwhile-result :
    {w u : DeviceWorld} {statuses : List ℕ}
    → Meanwhile w u statuses
    → u.device.tx_result ≡ last w.device.tx_result statuses
Meanwhile-result here = refl
Meanwhile-result {w} (next {u} {statuses = ss} m st) =
    Step-result st
    ∙ ap (λ (x : ℕ). last x (told st)) (Meanwhile-result m)
    ∙ sym (last-append w.device.tx_result ss (told st))

-- A write that is woken, and reads its result after any steps of the device: it returns its length or
-- its own status if no other packet has been completed meanwhile, and otherwise its length or status by
-- the status of the packet completed last, whichever write that belongs to.
pub late_result :
    (w : DeviceWorld) {d : Device} {u : DeviceWorld} {statuses : List ℕ} (n : ℕ)
    → write_wakes w.device ≡ ok d
    → Meanwhile (record w { device = d; writers = w.writers - 1 }) u statuses
    → write_returns u.device n
      ≡ value (let result = last w.device.tx_result statuses in if result == 0 then n else result)
unfolding write_wakes write_returns
late_result w n woken m = let result = Meanwhile-result m in ground (arith, woken, result)

-- ===== src/Platform/Pins.antt =====
-- What is held after `cc2520_plat_gpio_init`, and what is freed without being held.
use linux_cc2520_driver.Prelude.{
  ℕ, ◌≡◌, ◌==◌, Bool, true, false, not, ◌&&◌, ◌||◌, List, [], ◌∷◌, ◌++◌, if◌then◌else◌, arith,
}
use linux_cc2520_driver.Platform.{
  Resource, clock, fifo, fifop, cca, sfd, reset, debug_0, debug_1, irq, Entry, requested, refused,
  freed, gpio_init, gpio_free,
}

abbrev pub same : Resource → Resource → Bool
same clock clock = true
same fifo fifo = true
same fifop fifop = true
same cca cca = true
same sfd sfd = true
same reset reset = true
same debug_0 debug_0 = true
same debug_1 debug_1 = true
same (irq m) (irq n) = m == n
same _ _ = false

abbrev pub elem : Resource → List Resource → Bool
elem r [] = false
elem r (x ∷ xs) = same r x || elem r xs

abbrev pub without : Resource → List Resource → List Resource
without r [] = []
without r (x ∷ xs) = if same r x then xs else x ∷ without r xs

-- What the driver holds after the log, and what it has freed without holding it, in order.
abbrev pub replay : List Resource → List Entry → List Resource × List Resource
replay held [] = (held, [])
replay held (requested r ∷ log) = replay (r ∷ held) log
replay held (refused r ∷ log) = replay held log
replay held (freed r ∷ log) =
    let (left, stray) = replay (without r held) log in
    (left, if elem r held then stray else r ∷ stray)

-- The requests in order.
abbrev pub pins : List Resource
pins = fifo ∷ fifop ∷ cca ∷ sfd ∷ reset ∷ debug_0 ∷ debug_1 ∷ []

abbrev pub requests : ℕ → ℕ → List Resource
requests fifop_irq sfd_irq = pins ++ irq fifop_irq ∷ irq sfd_irq ∷ []

abbrev pub works : (Resource → Bool) → List Resource → Bool
works fails [] = true
works fails (r ∷ rs) = not (fails r) && works fails rs

abbrev pub from_first_failure : (Resource → Bool) → List Resource → List Resource
from_first_failure fails [] = []
from_first_failure fails (r ∷ rs) = if fails r then r ∷ rs else from_first_failure fails rs

-- Whichever request fails, and whatever the numbers of the two interrupts: the initialisation succeeds
-- exactly if none does, and then all nine are held and none was freed. Otherwise none is held, and
-- besides those held it has freed the clock pin, which is never requested, the pin that was refused
-- and all pins after it, and interrupt 0 in place of each of the two interrupts that it had not got,
-- since their numbers are stored only once they have been requested.
pub gpio_init-frees :
    (fails : Resource → Bool) (fifop_irq sfd_irq : ℕ)
    → ((gpio_init fails fifop_irq sfd_irq).0 ≡ works fails (requests fifop_irq sfd_irq))
      × ((replay [] (gpio_init fails fifop_irq sfd_irq).1).0 ≡ (
          if works fails (requests fifop_irq sfd_irq)
          then irq sfd_irq
            ∷ irq fifop_irq
            ∷ debug_1
            ∷ debug_0
            ∷ reset
            ∷ sfd
            ∷ cca
            ∷ fifop
            ∷ fifo
            ∷ []
          else []))
      × ((replay [] (gpio_init fails fifop_irq sfd_irq).1).1 ≡ (
          if works fails (requests fifop_irq sfd_irq)
          then []
          else clock
            ∷ (from_first_failure fails pins
                ++ (if works fails (pins ++ irq fifop_irq ∷ []) then [] else irq 0 ∷ [])
                ++ irq 0 ∷ [])))
unfolding gpio_init gpio_free
gpio_init-frees fails fifop_irq sfd_irq = (ground arith, ground arith, ground arith)

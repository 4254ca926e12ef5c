-- ===== src/Loading/Tests.antt =====
-- Loading with a failure in the middle, and what unloading leaves.
use linux_cc2520_driver.Prelude.{Bool, true, false, List, [], ◌∷◌, ◌≡◌, ok, refl, if◌then◌else◌}
use linux_cc2520_driver.Loading.{
  Part, radio, lpl, sack, csma, unique, wq, Action, taken, failed, freed, loaded, aborted,
  init_module, cleanup_module, attempt, create_wq,
}
use linux_cc2520_driver.Loading.Ladder.{same, replay, init_module-all_or_none}

abbrev sack_fails : Part → Bool
sack_fails sack = true
sack_fails _ = false

init_module-all_or_none_example :
    ((init_module sack_fails).0 ≡ aborted) × (replay [] (init_module sack_fails).1 ≡ ok [])
init_module-all_or_none_example = init_module-all_or_none sack_fails

abbrev wq_fails : Part → Bool
wq_fails wq = true
wq_fails _ = false

-- A load that reports success and has no work queue.
no_work_queue : (init_module wq_fails).0 ≡ loaded
unfolding init_module attempt create_wq
no_work_queue = refl

abbrev without : Part → List Part → List Part
without part [] = []
without part (p ∷ held) = if same part p then without part held else p ∷ without part held

-- The parts that are held after the actions, in whatever order they are freed.
abbrev left : List Part → List Action → List Part
left held [] = held
left held (taken p ∷ rest) = left (p ∷ held) rest
left held (failed p ∷ rest) = left held rest
left held (freed p ∷ rest) = left (without p held) rest

-- Unloading does not free the layers.
layers_left :
    left (left [] (init_module (λ p. false)).1) cleanup_module
    ≡ unique ∷ csma ∷ sack ∷ lpl ∷ radio ∷ []
unfolding init_module attempt create_wq cleanup_module
layers_left = refl

-- ===== src/Loading/Ladder.antt =====
-- The parts that a load has initialised and not freed.
use linux_cc2520_driver.Prelude.{
  Bool, true, false, not, ◌||◌, List, [], ◌∷◌, ◌++◌, ◌≡◌, Outcome, ok, fault, ◌>>=◌, if◌then◌else◌,
  arith,
}
use linux_cc2520_driver.Loading.{
  Part, gpio, spi, interface, radio, lpl, sack, csma, unique, wq, Action, taken, failed, freed,
  loaded, aborted, init_module,
}

abbrev pub same : Part → Part → Bool
same gpio gpio = true
same spi spi = true
same interface interface = true
same radio radio = true
same lpl lpl = true
same sack sack = true
same csma csma = true
same unique unique = true
same wq wq = true
same _ _ = false

-- The parts held after the actions, the latest first. Freeing any part but the latest held is a fault.
abbrev pub release : List Part → Part → Outcome (List Part)
release [] part = fault
release (top ∷ held) part = if same top part then ok held else fault

abbrev pub replay : List Part → List Action → Outcome (List Part)
replay held [] = ok held
replay held (taken part ∷ rest) = replay (part ∷ held) rest
replay held (failed part ∷ rest) = replay held rest
replay held (freed part ∷ rest) = do held' ← release held part; replay held' rest

-- Whether each of the eight parts works
abbrev pub all_work : (Part → Bool) → Bool
all_work fails = not (
    fails gpio
    || fails spi
    || fails interface
    || fails radio
    || fails lpl
    || fails sack
    || fails csma
    || fails unique)

-- Whichever parts fail to initialise: the load succeeds exactly if none of the eight parts does, and then
-- all eight have been initialised and none freed, and the work queue is there unless its creation failed,
-- which the load does not notice. Otherwise it is aborted, and the parts initialised before the first
-- failure have been freed, each by one call of its free function and in the reverse order.
pub init_module-all_or_none :
    (fails : Part → Bool)
    → ((init_module fails).0 ≡ (if all_work fails then loaded else aborted))
      × (replay [] (init_module fails).1
          ≡ ok (
              if all_work fails
              then (if fails wq then [] else wq ∷ [])
                ++ unique ∷ csma ∷ sack ∷ lpl ∷ radio ∷ interface ∷ spi ∷ gpio ∷ []
              else []))
unfolding init_module
init_module-all_or_none fails = (ground arith, ground arith)

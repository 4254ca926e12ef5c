-- ===== src/Loading.antt =====
-- module.c: loading and unloading the module. The parts' own `init` functions are calls that succeed or
-- fail (`fails`); what a failed one may keep is not counted here.
pub mod Ladder
mod Tests
use linux_cc2520_driver.Prelude.{ℕ, Bool, true, false, List, [], ◌∷◌, if◌then◌else◌}

-- What is initialised and freed: `cc2520_plat_gpio`, `cc2520_plat_spi` and the parts `cc2520_<name>`, and
-- the work queue.
pub data Part : Type 0 where
  gpio spi interface radio lpl sack csma unique wq : Part

-- A call of an `init` that succeeds or fails, and of a `free`.
pub data Action : Type 0 where
  taken failed freed : Part → Action

-- What `init_module` returns.
pub data Status : Type 0 where
  loaded aborted : Status

-- The labels of `init_module`, each falling through to the next.
error7 : List Action
error7 = []

error6 : List Action
unfolding error7
error6 = freed gpio ∷ error7

error5 : List Action
unfolding error6
error5 = freed spi ∷ error6

error4 : List Action
unfolding error5
error4 = freed interface ∷ error5

error3 : List Action
unfolding error4
error3 = freed radio ∷ error4

error2 : List Action
unfolding error3
error2 = freed lpl ∷ error3

error1 : List Action
unfolding error2
error1 = freed sack ∷ error2

error0 : List Action
unfolding error1
error0 = freed csma ∷ error1

-- `err = …_init(); if (err) goto label;` before the rest
attempt : (Part → Bool) → Part → List Action → Status × List Action → Status × List Action
attempt fails part label (status, rest) =
    if fails part then (aborted, failed part ∷ label) else (status, taken part ∷ rest)

-- `state.wq = create_singlethread_workqueue(…)`: the result is not looked at.
create_wq : (Part → Bool) → Status × List Action
create_wq fails = (loaded, (if fails wq then failed wq else taken wq) ∷ [])

-- `init_module` from `cc2520_plat_gpio_init` on.
unfoldable pub init_module : (Part → Bool) → Status × List Action
unfolding attempt error0 create_wq
init_module fails = attempt fails gpio error7 (
    attempt fails spi error6 (
      attempt fails interface error5 (
        attempt fails radio error4 (
          attempt fails lpl error3 (
            attempt fails sack error2
              (attempt fails csma error1 (attempt fails unique error0 (create_wq fails))))))))

unfoldable pub cleanup_module : List Action
cleanup_module = freed wq ∷ freed interface ∷ freed gpio ∷ freed spi ∷ []

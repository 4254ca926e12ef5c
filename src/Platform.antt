-- ===== src/Platform.antt =====
-- platform.c: GPIO pins and interrupts, registration with the SPI bus, and the interrupt handlers. The
-- kernel's calls succeed or fail as `fails` says; what was requested and freed is a log.
pub mod Pins
mod Tests
use linux_cc2520_driver.Prelude.{
  ℕ, Bool, true, false, List, [], ◌∷◌, ◌++◌, ok, ◌==◌, not, if◌then◌else◌,
}
use linux_cc2520_driver.Radio.State.{Radio, RadioHandled}
use linux_cc2520_driver.Radio.Tx.{sfd_occurred}
use linux_cc2520_driver.Radio.Rx.{fifop_occurred}

-- The GPIO pins of cc2520.h, and an interrupt by its number.
pub data Resource : Type 0 where
  clock fifo fifop cca sfd reset debug_0 debug_1 : Resource
  irq : ℕ → Resource

-- `gpio_request_one` or `request_irq` that returned 0 or an error, and `gpio_free` or `free_irq`.
-- The failure of an interrupt includes that of `gpio_to_irq` before it.
pub data Entry : Type 0 where
  requested refused freed : Resource → Entry

-- `cc2520_plat_gpio_free`, for `state.gpios.fifop_irq` and `state.gpios.sfd_irq`
unfoldable pub gpio_free : ℕ → ℕ → List Entry
gpio_free fifop_irq sfd_irq =
    freed clock
    ∷ freed fifo
    ∷ freed fifop
    ∷ freed cca
    ∷ freed sfd
    ∷ freed reset
    ∷ freed debug_0
    ∷ freed debug_1
    ∷ freed (irq fifop_irq)
    ∷ freed (irq sfd_irq)
    ∷ []

-- `err = …; if (err) goto fail;` before the rest, with the interrupt numbers that are stored at that time;
-- whether 0 is returned, and the log.
request : (Resource → Bool) → ℕ → ℕ → Resource → Bool × List Entry → Bool × List Entry
unfolding gpio_free
request fails stored_fifop stored_sfd r (succeeded, rest) =
    if fails r
    then (false, refused r ∷ gpio_free stored_fifop stored_sfd)
    else (succeeded, requested r ∷ rest)

-- `cc2520_plat_gpio_init`. `fifop_irq` and `sfd_irq` are the numbers that `gpio_to_irq` returns; each is
-- stored once its interrupt has been requested, and what is stored before is the 0 of `init_module`'s
-- `memset`.
unfoldable pub gpio_init : (Resource → Bool) → ℕ → ℕ → Bool × List Entry
unfolding request
gpio_init fails fifop_irq sfd_irq = request fails 0 0 fifo (
    request fails 0 0 fifop (
      request fails 0 0 cca (
        request fails 0 0 sfd (
          request fails 0 0 reset (
            request fails 0 0 debug_0 (
              request fails 0 0 debug_1 (
                request fails 0 0 (irq fifop_irq)
                  (request fails fifop_irq 0 (irq sfd_irq) (true, [])))))))))

-- `cc2520_sfd_handler`, for the time in nanoseconds and the value of the SFD pin
unfoldable pub sfd_handler : Radio → ℕ → ℕ → RadioHandled
sfd_handler r nanos gpio_val = sfd_occurred r nanos (not (gpio_val == 0))

-- `cc2520_fifop_handler`, for the value of the FIFOP pin
unfoldable pub fifop_handler : Radio → ℕ → RadioHandled
fifop_handler r gpio_val = if gpio_val == 1 then fifop_occurred r else ok (r, [])

-- The kernel's side of the SPI bus: what there is, and what its calls answer.
pub record Bus : Type 0 where
  pub has_master : Bool
  pub can_allocate : Bool
  -- a device that is registered at the chip select already
  pub claimed : Bool
  pub add_fails : Bool
  pub register_fails : Bool

-- The calls of the SPI core that take or give back something: `unregister_other` is `device_unregister` of
-- the device found at the chip select, `unregister_device` is `spi_unregister_device`.
pub data SpiCall : Type 0 where
  get_master put_master alloc_device unregister_other add_device put_spi_device unregister_device
        register_driver unregister_driver :
      SpiCall

-- `cc2520_spi_add_to_bus`: whether the status is at least 0
unfoldable pub add_to_bus : Bus → Bool × List SpiCall
add_to_bus b =
    let claim = if b.claimed then unregister_other ∷ [] else [] in
    if not b.has_master
    then (false, [])
    else if not b.can_allocate
    then (false, get_master ∷ put_master ∷ [])
    else if b.add_fails
    then (false, get_master ∷ alloc_device ∷ (claim ++ put_spi_device ∷ put_master ∷ []))
    else (true, get_master ∷ alloc_device ∷ (claim ++ add_device ∷ put_master ∷ []))

-- `cc2520_plat_spi_init`
unfoldable pub spi_init : Bus → Bool × List SpiCall
unfolding add_to_bus
spi_init b =
    let (added, calls) = add_to_bus b in
    if not added
    then (false, calls ++ unregister_driver ∷ [])
    else if b.register_fails
    then (false, calls ++ unregister_driver ∷ [])
    else (true, calls ++ register_driver ∷ [])

-- `cc2520_plat_spi_free`; `probed` says that `state.spi_device` is set, by `cc2520_spi_probe`.
unfoldable pub spi_free : Bool → List SpiCall
spi_free probed =
    if probed then unregister_device ∷ unregister_driver ∷ [] else unregister_driver ∷ []

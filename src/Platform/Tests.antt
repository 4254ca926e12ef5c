-- ===== src/Platform/Tests.antt =====
-- A refused interrupt, the interrupt handlers, and the bus after a refused driver.
use linux_cc2520_driver.Prelude.{◌≡◌, refl, Bool, true, false, [], ◌∷◌, ok}
use linux_cc2520_driver.Radio.State.{Radio}
use linux_cc2520_driver.Platform.{
  Resource, clock, irq, gpio_init, fifop_handler, spi_init, add_to_bus, get_master, put_master,
  alloc_device, add_device, unregister_driver,
}
use linux_cc2520_driver.Platform.Pins.{replay, gpio_init-frees}

abbrev no_interrupt : Resource → Bool
no_interrupt (irq n) = true
no_interrupt _ = false

gpio_init-frees_example :
    ((gpio_init no_interrupt 194 195).0 ≡ false)
    × ((replay [] (gpio_init no_interrupt 194 195).1).0 ≡ [])
    × ((replay [] (gpio_init no_interrupt 194 195).1).1 ≡ clock ∷ irq 0 ∷ irq 0 ∷ [])
gpio_init-frees_example = gpio_init-frees no_interrupt 194 195

-- The falling edge of FIFOP does nothing.
falling : (r : Radio) → fifop_handler r 0 ≡ ok (r, [])
unfolding fifop_handler
falling r = refl

-- The driver is refused: the device stays on the bus, and a driver that is not registered is unregistered.
refused_driver :
    spi_init (record {
      has_master = true;
      can_allocate = true;
      claimed = false;
      add_fails = false;
      register_fails = true;
    })
    ≡ (false, get_master ∷ alloc_device ∷ add_device ∷ put_master ∷ unregister_driver ∷ [])
unfolding spi_init add_to_bus
refused_driver = refl

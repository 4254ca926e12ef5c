-- ===== src/Device/Tests.antt =====
-- The device on concrete writes, and the theorems at them.
use linux_cc2520_driver.Prelude.{
  ℕ, zero, suc, fault, ◌+◌, ◌≡◌, refl, true, false, some, none, [], ◌∷◌, ◌++◌, Buf, ok, memcpy,
  replicate, arith,
}
use linux_cc2520_driver.Device.{
  Device, init, eagain, efault, error, value, returned, tx_done, rx_done, write_begin, write_locked,
  write_end, write_wakes, write_returns, read_woken,
}
use linux_cc2520_driver.Device.World.{
  DeviceWorld, begin, begins, completes, ends, Reach, here, next,
}
use linux_cc2520_driver.Device.Late
use linux_cc2520_driver.Device.Late.{Meanwhile, late_result}
use linux_cc2520_driver.Device.Exclusion.{device_exclusion}
use linux_cc2520_driver.Radio.Opcodes
use linux_cc2520_driver.Radio.RegisterMap
use linux_cc2520_driver.Radio.RegisterMap.{address}
use linux_cc2520_driver.Radio.State
use linux_cc2520_driver.Radio.State.{RadioEffect}
use linux_cc2520_driver.Radio.Config.{write_register, write_memory, addr_mem, strobe}
use linux_cc2520_driver.Lpl
use linux_cc2520_driver.Csma
use linux_cc2520_driver.Sack
use linux_cc2520_driver.Device.Ioctl
use linux_cc2520_driver.Device.Readers
use linux_cc2520_driver.Device.Readers.{ReadWorld}
use linux_cc2520_driver.Device.Ioctl.{Driver, SetAddressData}
use linux_cc2520_driver.Device.Ioctl.Settles.{requests, ioctl_on_restores}
use linux_cc2520_driver.Device.Registration.{Kernel, err_ptr}
use linux_cc2520_driver.Device.Write.{taken}
use linux_cc2520_driver.Device.Log
use linux_cc2520_driver.Device.Torn
use linux_cc2520_driver.Device.Torn.{read_live-torn}
use linux_cc2520_driver.Device.Log.{AllBytes, print_to_log-text}

abbrev fresh : Buf
fresh = replicate 127 0

abbrev ack_frame : Buf
ack_frame = 5 ∷ 2 ∷ 0 ∷ 7 ∷ []

abbrev quiet : Device
unfolding init
quiet = init fresh fresh

-- A second writer that does not wait is turned away while the first one waits.
second_writer :
    write_begin (taken quiet ack_frame 4) true false (some ack_frame) 4
    ≡ ok (taken quiet ack_frame 4, returned (error eagain), [])
unfolding write_begin write_locked init memcpy
second_writer = refl

-- A failed copy leaves the semaphore free.
bad_address : write_begin quiet false false none 4 ≡ ok (quiet, returned (error efault), [])
unfolding write_begin write_locked init memcpy
bad_address = refl

received :
    (d : Device) × (rx_done quiet ack_frame 4 ≡ ok d) × (read_woken d true ≡ (value 4, ack_frame))
unfolding rx_done init memcpy read_woken
received = (record quiet { rx_pkt_len = 4; rx_buf_c = ack_frame ++ replicate 123 0 }, refl, refl)

completed_world : (w : DeviceWorld) × Reach (begin fresh fresh) w
unfolding init write_begin write_locked write_end memcpy tx_done
completed_world = (
  _,
  next
      (next (next here (begins false false (some ack_frame) 4 _ _ _ refl refl))
        (completes 0 (omega arith) refl))
      (ends 4 _ _ (omega arith) refl refl),
)

device_exclusion_example :
    (completed_world.0.device.tx_sem + completed_world.0.writers ≡ 1)
    × (completed_world.0.device.tx_done_sem + completed_world.0.sending ≡ completed_world.0.writers)
device_exclusion_example = device_exclusion fresh fresh completed_world.1

-- A write that has been completed with success, and before it goes on.
abbrev completed : DeviceWorld
completed = record {
  device = tx_done (taken quiet ack_frame 4) 0;
  writers = 1;
  sending = 0;
  answers = 1;
}

abbrev woken_device : Device
woken_device = record completed.device { tx_sem = 1; tx_done_sem = 0 }

wakes : write_wakes completed.device ≡ ok woken_device
unfolding init write_wakes tx_done
wakes = refl

-- Another write takes the semaphore, and its packet fails.
overtaken :
    (u : DeviceWorld) × Meanwhile
      (record completed { device = woken_device; writers = 0 })
      u
      (252 ∷ [])
unfolding init write_begin write_locked memcpy tx_done
overtaken = (
  _,
  Late.next (Late.next Late.here (begins false false (some ack_frame) 4 _ _ _ refl refl))
      (completes 252 (omega arith) refl),
)

-- The write that succeeded returns the failure of the other.
late_result_example : write_returns overtaken.0.device 4 ≡ value 252
unfolding init tx_done
late_result_example = late_result completed 4 wakes overtaken.1

abbrev driver : Driver
unfolding Lpl.init Csma.init Sack.init State.init
driver = record {
  lpl = Lpl.init fresh;
  csma = record (Csma.init fresh) { csma_state = Csma.cong };
  sack = Sack.init (replicate 6 0) fresh fresh;
  radio = State.init (replicate 256 0) fresh fresh;
  debug_print = 1;
}

abbrev home : SetAddressData
home = record { short_addr = 2; extended_addr = 0x0102030405060708; pan_id = 0x22 }

ioctl_on_restores_example :
    (e : Driver) × (requests driver
        (Ioctl.set_channel (some 20)
          ∷ Ioctl.set_txpower (some 0x32)
          ∷ Ioctl.set_address (some home)
          ∷ Ioctl.radio_off
          ∷ Ioctl.radio_on
          ∷ [])
        []
      ≡ ok (
        e,
        write_register (address RegisterMap.freqctrl) 56
            ∷ write_memory Opcodes.mem_addr_base (addr_mem 2 0x0102030405060708 0x22)
            ∷ strobe Opcodes.cmd_srxon
            ∷ [],
      ))
unfolding State.init driver
ioctl_on_restores_example = ioctl_on_restores driver 20 0x32 home refl (omega arith) (omega arith)

-- The class cannot be created, and the device neither.
abbrev no_class : Kernel
no_class = record {
  kmalloc_tx = some fresh;
  kmalloc_rx = some fresh;
  alloc_chrdev_region = true;
  cdev_add = true;
  class_create = err_ptr;
  device_create = err_ptr;
}

-- One reader sleeps, one packet arrives.
reader_woken : (w : ReadWorld) × Readers.Reach (Readers.quiet fresh fresh) w
unfolding init rx_done memcpy
reader_woken = (
  _,
  Readers.next (Readers.next Readers.here (Readers.sleeps refl))
      (Readers.receives ack_frame 4 _ refl refl),
)

all_high : (n : ℕ) → AllBytes (replicate n 255)
all_high zero = tt
all_high (suc n) = (omega arith, all_high n)

-- A packet of 127 bytes 0xFF, on a platform where `char` is signed, overruns the buffer.
print_to_log-text_example :
    (Log.print_to_log true (replicate 127 255) 127 ≡ fault)
    × (Log.print_to_log false (replicate 127 255) 127 ≡ ok (Log.text_of false (replicate 127 255)))
print_to_log-text_example =
    print_to_log-text true (replicate 127 255) 127 (omega arith) (all_high 127)

-- A reader of 3 bytes, and a packet of 4 that arrives after the first.
abbrev reader : Device
unfolding init
reader = record (init fresh (1 ∷ 2 ∷ 3 ∷ 0 ∷ 0 ∷ [])) { rx_pkt_len = 3 }

read_live-torn_example :
    (Torn.read_live reader (none ∷ none ∷ none ∷ []) none ≡ ok (value 3, 1 ∷ 2 ∷ 3 ∷ []))
    × (Torn.read_live reader (none ∷ some (7 ∷ 8 ∷ 9 ∷ 6 ∷ [], 4) ∷ none ∷ []) none
        ≡ ok (value 4, 1 ∷ 8 ∷ 9 ∷ []))
    × (Torn.read_live reader (none ∷ none ∷ none ∷ []) (some (7 ∷ 8 ∷ 9 ∷ 6 ∷ [], 4))
        ≡ ok (value 4, 1 ∷ 2 ∷ 3 ∷ []))
unfolding init read_woken
read_live-torn_example =
    read_live-torn reader 1 1 (7 ∷ 8 ∷ 9 ∷ 6 ∷ []) 4 refl (omega arith) (omega arith) (omega arith)

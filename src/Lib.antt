-- ===== src/Lib.antt =====
-- The CC2520 radio driver: a Linux kernel module for an IEEE 802.15.4 radio behind SPI.
--
-- The program is a stack of layers, bound to one another by `struct cc2520_interface` (cc2520.h):
-- the character device (interface.c), the duplicate filter (unique.c), low-power listening (lpl.c),
-- carrier sensing (csma.c), software acknowledgements (sack.c) and the radio (radio.c). A packet goes
-- down through `tx`, its result comes up through `tx_done`, and received packets through `rx_done`.
-- Each layer keeps static variables and is driven by calls of its neighbours and by timers.
--
-- Files:
--   * Prelude: shared names, lists with native indices, and `Outcome`: a handler returns (`ok`),
--     goes out of bounds or divides by zero (`fault`), or spins (`blocked`). `memcpy` between buffers
--     of known size faults where the C code would overrun one.
--   * Config: the constants of cc2520.h. Layer: `struct cc2520_interface` as a data type of calls; a
--     handler `cc2520_<layer>_<name>` is a function from the layer's variables and its arguments to
--     the new variables and the calls that it makes, in order. Ledger: what a layer has accepted,
--     completed and waits for.
--   * Packet: packet.c. Frame and Bytes are the layout of the standard; Source, Ack and Copy prove.
--   * Unique: unique.c. History is its specification; Filter and Traffic prove the refinement.
--   * Csma: csma.c, with `tx_packet` for `cc2520_csma_tx`. World is its environment as a step relation;
--     Completion, Progress, Backoff and Toggle prove.
--   * Lpl: lpl.c. `cc2520_lpl_tx` is in two parts, `tx_calls` and `tx_starts`, since it starts its timer after
--     the call of the layer below and outside its lock. World, Completion, Start, Stale, Session and Toggle
--     as above.
--   * Sack: sack.c. World, Completion, Receive, Exchange and Deadlock.
--   * Radio: radio.c with the tables of cc2520.h (Opcodes, RegisterMap), and its unions of a register's
--     value with bit fields and their defaults in radio_config.h (Unions). State has the variables and locks, Config the
--     settings and on/off, Tx and Rx the two engines (`tx_check` is `continueTx_check`, `tx_written` is
--     `continueTx`, `tx_flushed` is `completeFlushTx`, `rx_length` is `continueRx`, `rx_deliver` and
--     `rx_after` are the two halves of `finishRx`). Shared is `msg` and `tx_buf`, which
--     all messages share: World has the engine with them, Layout, Fits, Owned and Lost prove. Registers,
--     Startup, Address, Frames, Transmission, TxWorld, TxCompletion, Reception, RxWorld and Rest prove, and Held about
--     what runs while the radio is being configured.
--   * Device: interface.c. `write_begin` and `write_end` are `interface_write` before and after its wait
--     for the completion, the latter made of `write_wakes` and `write_returns`; World has the writers and
--     the completions, Exclusion and Write prove, and Late about what runs between these two.
--     Ioctl is `interface_ioctl` over the variables of all layers, Ioctl/Settles proves.
--     Registration is `cc2520_interface_init` and `cc2520_interface_free`; Readers has the wait queue of
--     `interface_read`, Torn has packets that arrive while it copies, Log is `interface_print_to_log`.
--   * Each of Lpl, Csma, Sack, Radio and Device has a module Payload: what a step of its World does with
--     the packet that it is given, and a module Advance: the steps that can run when something waits for
--     the layer, and how much nearer they bring it to rest; Stack/Advance, Progress, Distance and
--     Liveness compose them. Parcels has the bytes of a call and the order in which calls wait, Statuses
--     the same for completions.
--   * Stack: `setup_bindings` of module.c, the machines of the layers coupled by the counts of their
--     calls (Conservation proves). Cargo adds the bytes of the calls on their way down (Counts, Contents
--     and Payload prove); Sizes has the bounds of its buffers. Upward composes the `rx_done` handlers from
--     the radio to the device (Delivery proves), Link joins the two ways, and Bypass is lpl.c and csma.c
--     switched off. Told adds to Cargo the statuses of the completions on their way up; the modules Report
--     of the layers, and Says, Truth, Busy, Settled, Reports and Contract prove. Lost is
--     an ioctl that meets a packet under way; Still and the modules Hold of the layers prove.
--   * Loading: `init_module` and `cleanup_module`; Ladder proves. Allocation: what the layers' init and free
--     functions allocate and release; Leaks proves. Platform: platform.c; Pins proves.
--   * The modules Tests and Stack/Journey hold concrete inputs and each theorem at one of them.
--
-- Representation: a `u8 *` is the list of the bytes of its allocation, at the moment of the call that
-- passes it; numbers are natural numbers with C's wrap-around written out, a negative status
-- `-CC2520_X` being its `u8` value; an `int` that is only compared for zero or added is its 32-bit
-- pattern. A handler is one step, but for the two parts of `cc2520_lpl_tx`, the
-- two of `interface_write` (three in Device/Late), and the copying of a reader in Device/Torn. There is no
-- fuel: every loop of the modelled code is a structural recursion. What the chip, the timers and the
-- random generator do is an argument, or a step of an environment that may take it at any time.
--
-- Not modelled: what other handlers do while `cc2520_radio_start`, `cc2520_radio_on` and `cc2520_radio_off`
-- sleep with the lock held, but for Radio/Held: the machines of the stack are without them; and what the
-- kernel does with a null work queue. Cancelling the timers when a layer is freed, the fields of the `spi_device` structure,
-- and the command and header constants that no code uses. Printing is left out but for the buffer of
-- `interface_print_to_log`. The test programs and the kernel patches are no part of the driver.
pub mod Prelude
pub mod Config
pub mod Packet
pub mod Layer
pub mod Ledger
pub mod Parcels
pub mod Statuses
pub mod Unique
pub mod Csma
pub mod Lpl
pub mod Sack
pub mod Radio
pub mod Device
pub mod Stack
pub mod Loading
pub mod Platform
pub mod Allocation

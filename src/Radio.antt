-- ===== src/Radio.antt =====
-- radio.c: the CC2520 behind SPI. `State` has its variables, `Config` the settings and on/off, `Tx`
-- and `Rx` the two engines; the other modules prove what these do.
-- An SPI transfer is the bytes it sends from `tx_buf` or `rx_out_buf`; a message is its transfers.
pub mod Opcodes
pub mod RegisterMap
pub mod Unions
pub mod State
pub mod Config
pub mod Tx
pub mod Rx
pub mod Registers
pub mod Startup
pub mod Address
pub mod Frames
pub mod TxWorld
pub mod Shared
pub mod TxCompletion
pub mod Payload
pub mod Advance
pub mod Transmission
pub mod RxWorld
pub mod Rest
pub mod Held
pub mod Reception
mod Tests

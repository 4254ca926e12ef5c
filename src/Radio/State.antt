-- ===== src/Radio/State.antt =====
-- The static variables of radio.c, what its handlers do besides, and the state lock.
use linux_cc2520_driver.Prelude.{
  ℕ, Bool, true, false, List, Buf, Outcome, ok, blocked, if◌then◌else◌,
}
use linux_cc2520_driver.Config.{def_short_addr, def_ext_addr, def_pan, def_channel}

-- enum cc2520_radio_state_enum
pub data State : Type 0 where
  idle tx tx_sfd_done tx_spi_done tx_2_rx config : State

pub record Radio : Type 0 where
  pub short_addr : ℕ
  pub extended_addr : ℕ
  pub pan_id : ℕ
  pub channel : ℕ
  pub rx_in_buf : Buf
  pub tx_buf_r : Buf
  pub rx_buf_r : Buf
  pub tx_buf_r_len : ℕ
  pub sfd_nanos_ts : ℕ
  pub radio_state : State
  pub pending_rx : Bool
  -- `rx_buf_sl` is held
  pub rx_buf_sl : Bool

-- The `complete` callbacks of `msg` and of `rx_msg`; `finish_rx` carries its context.
pub data TxCallback : Type 0 where
  continue_tx_check continue_tx complete_flush_tx : TxCallback

pub data RxCallback : Type 0 where
  continue_rx : RxCallback
  finish_rx : ℕ → RxCallback
  continue_flush_rx : RxCallback
  complete_flush_rx : RxCallback

abbrev pub Message : Type 0
Message = List (List ℕ)

pub data RadioEffect : Type 0 where
  spi_sync : Message → RadioEffect
  -- `spi_async` of `msg`, with its callback
  spi_async_tx : Message → TxCallback → RadioEffect
  -- `spi_async` of `rx_msg`, with its callback
  spi_async_rx : Message → RxCallback → RadioEffect
  -- `gpio_set_value(CC2520_RESET, v)`
  gpio_reset : ℕ → RadioEffect
  udelay : ℕ → RadioEffect
  top_tx_done : ℕ → RadioEffect
  top_rx_done : Buf → ℕ → RadioEffect

abbrev pub RadioHandled : Type 0
RadioHandled = Outcome (Radio × List RadioEffect)

-- The variables after a successful `cc2520_radio_init`, for the bytes that `kmalloc` returned.
unfoldable pub init : Buf → Buf → Buf → Radio
init in_fresh tx_fresh rx_fresh = record {
  short_addr = def_short_addr;
  extended_addr = def_ext_addr;
  pan_id = def_pan;
  channel = def_channel;
  rx_in_buf = in_fresh;
  tx_buf_r = tx_fresh;
  rx_buf_r = rx_fresh;
  tx_buf_r_len = 0;
  sfd_nanos_ts = 0;
  radio_state = idle;
  pending_rx = false;
  rx_buf_sl = false;
}

abbrev pub is_idle : State → Bool
is_idle idle = true
is_idle _ = false

-- `cc2520_radio_lock(state)`: it spins until the radio is idle.
unfoldable pub lock : Radio → State → Outcome Radio
lock r state = if is_idle r.radio_state then ok (record r { radio_state = state }) else blocked

unfoldable pub unlock : Radio → Radio
unlock r = record r { radio_state = idle }

-- The two functions tell whether both the SPI message and the frame are through.
unfoldable pub tx_unlock_spi : State → State × Bool
tx_unlock_spi tx = (tx_spi_done, false)
tx_unlock_spi tx_sfd_done = (tx_2_rx, true)
tx_unlock_spi st = (st, false)

unfoldable pub tx_unlock_sfd : State → State × Bool
tx_unlock_sfd tx = (tx_sfd_done, false)
tx_unlock_sfd tx_spi_done = (tx_2_rx, true)
tx_unlock_sfd st = (st, false)

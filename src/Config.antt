-- ===== src/Config.antt =====
-- The constants of cc2520.h: buffer sizes, defaults, and the status codes of a transmission.
use linux_cc2520_driver.Prelude.{ℕ, ◌-◌, ◌%◌, Bool, true}

abbrev pub spi_buff_size : ℕ
spi_buff_size = 256

abbrev pub pkt_buff_size : ℕ
pkt_buff_size = 127

abbrev pub def_channel : ℕ
def_channel = 26

abbrev pub def_pan : ℕ
def_pan = 0x22

abbrev pub def_short_addr : ℕ
def_short_addr = 0x01

abbrev pub def_ext_addr : ℕ
def_ext_addr = 0x01

-- Times are in microseconds.
abbrev pub def_ack_timeout : ℕ
def_ack_timeout = 2500

abbrev pub def_min_backoff : ℕ
def_min_backoff = 320

abbrev pub def_init_backoff : ℕ
def_init_backoff = 4960

abbrev pub def_cong_backoff : ℕ
def_cong_backoff = 2240

abbrev pub def_csma_enabled : Bool
def_csma_enabled = true

abbrev pub def_lpl_wakeup_interval : ℕ
def_lpl_wakeup_interval = 512000

abbrev pub def_lpl_listen_window : ℕ
def_lpl_listen_window = 5120

abbrev pub def_lpl_enabled : Bool
def_lpl_enabled = true

abbrev pub tx_success : ℕ
tx_success = 0

abbrev pub tx_busy : ℕ
tx_busy = 1

abbrev pub tx_length : ℕ
tx_length = 2

abbrev pub tx_ack_timeout : ℕ
tx_ack_timeout = 3

abbrev pub tx_failed : ℕ
tx_failed = 4

abbrev pub tx_underflow : ℕ
tx_underflow = 8

-- `-code`, passed as the `u8 status` of `tx_done`.
abbrev pub neg_u8 : ℕ → ℕ
neg_u8 code = (256 - code) % 256

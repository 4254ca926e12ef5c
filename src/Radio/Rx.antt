-- ===== src/Radio/Rx.antt =====
-- The receive engine: FIFOP starts a chain of SPI messages that reads the length and then the frame,
-- passes the frame up, and flushes the FIFO twice where something is wrong.
use linux_cc2520_driver.Prelude.{
  ℕ, ◌+◌, Bool, true, false, List, [], ◌∷◌, ◌++◌, Buf, Outcome, ok, blocked, ◌>>=◌, memcpy, get_or,
  set, take, drop, length, leb, replicate, if◌then◌else◌,
}
use linux_cc2520_driver.Config.{spi_buff_size}
use linux_cc2520_driver.Radio.Opcodes
use linux_cc2520_driver.Radio.State.{
  Radio, continue_rx, finish_rx, continue_flush_rx, complete_flush_rx, RadioEffect, spi_async_rx,
  top_rx_done, RadioHandled,
}

-- What the SPI controller leaves in `rx_in_buf` for a transfer that returned `reply`.
unfoldable pub spi_reply : Radio → List ℕ → Radio
spi_reply r reply = record r { rx_in_buf = reply ++ drop (length reply) r.rx_in_buf }

-- `cc2520_radio_beginRx`
begin_rx : Radio → RadioHandled
begin_rx r = ok (
  record r { rx_in_buf = replicate spi_buff_size 0 },
  spi_async_rx ((Opcodes.cmd_rxbuf ∷ 0 ∷ []) ∷ []) continue_rx ∷ [],
)

-- `cc2520_radio_fifop_occurred`
unfoldable pub fifop_occurred : Radio → RadioHandled
unfolding begin_rx
fifop_occurred r = if r.pending_rx then ok (r, []) else begin_rx (record r { pending_rx = true })

-- `cc2520_radio_flushRx`
flush_rx : RadioEffect
flush_rx = spi_async_rx ((Opcodes.cmd_sflushrx ∷ []) ∷ []) continue_flush_rx

-- `cc2520_radio_continueRx`
unfoldable pub rx_length : Radio → RadioHandled
unfolding flush_rx
rx_length r =
    let len = get_or r.rx_in_buf 1 0 in
    if leb len 127
    then ok (r, spi_async_rx ((Opcodes.cmd_rxbuf ∷ replicate len 0) ∷ []) (finish_rx len) ∷ [])
    else ok (r, flush_rx ∷ [])

-- `cc2520_radio_continueFlushRx`
unfoldable pub rx_flush_again : Radio → RadioHandled
rx_flush_again r = ok (r, spi_async_rx ((Opcodes.cmd_sflushrx ∷ []) ∷ []) complete_flush_rx ∷ [])

-- `cc2520_radio_completeFlushRx`
unfoldable pub rx_flushed : Radio → RadioHandled
rx_flushed r = ok (record r { pending_rx = false }, [])

-- `memcpy(dst + 1, src + 1, n)` between buffers of which the first byte stays out.
unfoldable pub memcpy_after_first : Buf → Buf → ℕ → Outcome Buf
memcpy_after_first dst src n = do
  copied ← memcpy (drop 1 dst) (drop 1 src) n
  ok (take 1 dst ++ copied)

-- `cc2520_radio_finishRx` up to and with the call of `radio_top->rx_done`. `rx_buf_sl` is taken and
-- left to the receiver of the packet to release.
unfoldable pub rx_deliver : Radio → ℕ → RadioHandled
unfolding memcpy_after_first
rx_deliver r len = if r.rx_buf_sl then blocked else do
  rx_buf_r ← memcpy_after_first (set r.rx_buf_r 0 len) r.rx_in_buf len
  ok (record r { rx_buf_sl = true; rx_buf_r = rx_buf_r }, top_rx_done rx_buf_r (len + 1) ∷ [])

-- The rest of `cc2520_radio_finishRx`; `fifo` is the FIFO pin.
unfoldable pub rx_after : Radio → Bool → RadioHandled
unfolding flush_rx
rx_after r fifo = if fifo then ok (r, flush_rx ∷ []) else ok (record r { pending_rx = false }, [])

-- `cc2520_radio_release_rx`
unfoldable pub release_rx : Radio → Radio
release_rx r = record r { rx_buf_sl = false }

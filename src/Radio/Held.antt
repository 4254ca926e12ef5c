-- ===== src/Radio/Held.antt =====
-- The radio while `cc2520_radio_start`, `cc2520_radio_on` or `cc2520_radio_off` sleeps in `spi_sync`.
use linux_cc2520_driver.Prelude.{ℕ, ◌≡◌, Buf, ok, blocked, arith}
use linux_cc2520_driver.Radio.State.{Radio, config, lock}
use linux_cc2520_driver.Radio.Config.{start_held, on_held, off_held}
use linux_cc2520_driver.Radio.Tx.{tx_packet}

-- While one of them holds the lock, a transmission that any other context begins spins: that of a packet
-- as well as that of the acknowledgement that the receive callback sends.
tx_packet-spins :
    (r : Radio) {held : Radio} (buf : Buf) (len : ℕ)
    → lock r config ≡ ok held
    → (tx_packet (start_held held).0 buf len ≡ blocked)
      × (tx_packet (on_held held).0 buf len ≡ blocked)
      × (tx_packet (off_held held).0 buf len ≡ blocked)
unfolding lock start_held on_held off_held tx_packet
tx_packet-spins r buf len e = (ground (arith, e), ground (arith, e), ground (arith, e))

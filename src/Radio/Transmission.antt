-- ===== src/Radio/Transmission.antt =====
-- One packet through the transmit engine, with both orders of its two last events.
use linux_cc2520_driver.Prelude.{
  ℕ, ◌/◌, ◌%◌, ◌^◌, ◌≤◌, ◌≡◌, refl, Bool, true, false, [], ◌∷◌, ◌++◌, Buf, ok, length, take, drop,
  memcpy-ok, if◌then◌else◌, arith,
}
use linux_cc2520_driver.Radio.State.{
  Radio, State, idle, tx, tx_sfd_done, tx_spi_done, continue_tx_check, continue_tx,
  complete_flush_tx, spi_async_tx, top_tx_done,
}
use linux_cc2520_driver.Radio.Tx.{
  tx_packet, tx_message, tx_check, tx_written, tx_flushed, sfd_occurred,
}

-- The variables while a packet is being sent, and after it, the frame's end seen at `time`.
abbrev pub loaded : Radio → Buf → ℕ → Radio
loaded r buf len = record r {
  radio_state = tx;
  tx_buf_r = take len buf ++ drop len r.tx_buf_r;
  tx_buf_r_len = len;
}

abbrev pub over : Radio → Buf → ℕ → ℕ → Radio
over r buf len time =
    let r' = loaded r buf len in record r' { radio_state = idle; sfd_nanos_ts = time }

-- An idle radio takes a packet that fits its buffer, copies it, stops the receiver, and then, in
-- a second SPI message, hands the packet over. If the chip reports no underflow, the end of the SPI
-- message and the falling edge of SFD may come in either order: the first of them reports nothing,
-- the second reports success, once, and both orders leave the same, idle, radio.
pub transmission :
    (r : Radio) (buf : Buf) (len : ℕ) (fifo : Bool) (exceptions time : ℕ)
    → r.radio_state ≡ idle
    → len ≤ length buf
    → len ≤ length r.tx_buf_r
    → exceptions / 2 ^ 3 % 2 ≡ 0
    → let sent = loaded r buf len in
      (by_spi : Radio) × (by_sfd : Radio) × (tx_packet r buf len
        ≡ ok (sent, spi_async_tx ((0x45 ∷ []) ∷ []) continue_tx_check ∷ []))
      × (tx_check sent fifo ≡ ok (sent, spi_async_tx (tx_message sent fifo) continue_tx ∷ []))
      × (tx_written sent exceptions ≡ ok (by_spi, []))
      × (sfd_occurred by_spi time false ≡ ok (over r buf len time, top_tx_done 0 ∷ []))
      × (sfd_occurred sent time false ≡ ok (by_sfd, []))
      × (tx_written by_sfd exceptions ≡ ok (over r buf len time, top_tx_done 0 ∷ []))
unfolding tx_packet tx_check tx_written sfd_occurred
transmission r buf len fifo exceptions time st have fits fine =
    let sent = loaded r buf len in
    (
      record sent { radio_state = tx_spi_done },
      record sent { radio_state = tx_sfd_done; sfd_nanos_ts = time },
      ground (arith, memcpy-ok r.tx_buf_r buf len fits have),
      refl,
      rw fine,
      refl,
      refl,
      rw fine,
    )

-- If the chip reports an underflow, before or after SFD has fallen, the transmit FIFO is flushed
-- and the exception flag cleared; SFD edges meanwhile report nothing; when the flush is through the
-- packet is reported as failed, once, and the radio is idle.
pub transmission-underflow :
    (r : Radio) (exceptions time : ℕ) (high fallen : Bool)
    → exceptions / 2 ^ 3 % 2 ≡ 1
    → let sending = record r { radio_state = if fallen then tx_sfd_done else tx } in
      (edge : Radio) × (tx_written sending exceptions
        ≡ ok (sending, spi_async_tx ((0x48 ∷ 0xD0 ∷ 0 ∷ []) ∷ []) complete_flush_tx ∷ []))
      × (sfd_occurred sending time high ≡ ok (edge, []))
      × (tx_flushed sending ≡ ok (record r { radio_state = idle }, top_tx_done 252 ∷ []))
      × (tx_flushed edge
          ≡ ok (record r { radio_state = idle; sfd_nanos_ts = time }, top_tx_done 252 ∷ []))
unfolding tx_written tx_flushed sfd_occurred
transmission-underflow r exceptions time high fallen bad = (
  record r { radio_state = after_edge high fallen; sfd_nanos_ts = time },
  rw bad,
  ground arith,
  ground arith,
  refl,
)
  where
    after_edge : Bool → Bool → State
    after_edge true true = tx_sfd_done
    after_edge true false = tx
    after_edge false _ = tx_sfd_done

-- ===== src/Radio/Reception.antt =====
-- One packet through the receive engine, and the two flushes.
use linux_cc2520_driver.Prelude.{
  ℕ, suc, ◌+◌, ◌≤◌, ◌<◌, ◌≡◌, refl, ap, true, false, List, [], ◌∷◌, ◌++◌, Buf, ok, fault, length,
  take, drop, set, get_or, replicate, memcpy, memcpy-ok, length-append, arith,
}
use linux_cc2520_driver.Config.{spi_buff_size, pkt_buff_size}
use linux_cc2520_driver.Radio.State.{
  Radio, continue_rx, finish_rx, continue_flush_rx, complete_flush_rx, Message, spi_async_rx,
  top_rx_done,
}
use linux_cc2520_driver.Radio.Rx.{
  spi_reply, fifop_occurred, rx_length, rx_flush_again, rx_flushed, memcpy_after_first, rx_deliver,
  rx_after,
}

take-append_length : (xs ys : List ℕ) → take (length xs) (xs ++ ys) ≡ xs
take-append_length [] ys = refl
take-append_length (x ∷ xs) ys = ap (◌∷◌ x) (take-append_length xs ys)

-- The buffer handed up for a frame: the length byte, the frame, and what was behind it.
abbrev pub packet_buf : List ℕ → List ℕ → Buf
packet_buf frame [] = []
packet_buf frame (x ∷ xs) = length frame ∷ (frame ++ drop (length frame) xs)

memcpy_after_first-ok :
    (old : Buf) (frame rest : List ℕ) (s : ℕ)
    → length frame < length old
    → memcpy_after_first (set old 0 (length frame)) (s ∷ (frame ++ rest)) (length frame)
      ≡ ok (packet_buf frame old)
unfolding memcpy_after_first
memcpy_after_first-ok [] frame rest s h = absurd (omega arith)
memcpy_after_first-ok (x ∷ xs) frame rest s h =
    rw
      (memcpy-ok xs (frame ++ rest) (length frame) (omega arith)
        (omega (arith, length-append frame rest)))
      (rw (take-append_length frame rest))

memcpy_after_first-fault :
    (old src : Buf) (n : ℕ)
    → length old ≤ n
    → 0 < length old
    → memcpy_after_first (set old 0 n) src n ≡ fault
unfolding memcpy_after_first memcpy
memcpy_after_first-fault [] src n h p = absurd (omega arith)
memcpy_after_first-fault (x ∷ xs) src n h p = ground arith

pub deliver_frame :
    (r : Radio) (frame rest : List ℕ) (s : ℕ)
    → r.rx_buf_sl ≡ false
    → r.rx_in_buf ≡ s ∷ (frame ++ rest)
    → length frame < length r.rx_buf_r
    → rx_deliver r (length frame)
      ≡ ok (
        record r { rx_buf_sl = true; rx_buf_r = packet_buf frame r.rx_buf_r },
        top_rx_done (packet_buf frame r.rx_buf_r) (length frame + 1) ∷ [],
      )
unfolding rx_deliver
deliver_frame r frame rest s free e h =
    ground (arith, memcpy_after_first-ok r.rx_buf_r frame rest s h)

pub take-packet_buf :
    (frame old : List ℕ)
    → length frame < length old
    → take (length frame + 1) (packet_buf frame old) ≡ length frame ∷ frame
take-packet_buf frame [] h = absurd (omega arith)
take-packet_buf frame (x ∷ xs) h =
    let e : length frame + 1 ≡ suc (length frame) = omega arith in
    rw e (ap (◌∷◌ (length frame)) (take-append_length frame (drop (length frame) xs)))

-- The variables while a frame is being read.
abbrev pub reading : Radio → Radio
reading r = record r { pending_rx = true; rx_in_buf = replicate spi_buff_size 0 }

-- For a frame shorter than the receive buffer's 127 bytes, with the buffer not held: FIFOP starts
-- the engine; the length that the chip returns is asked for in a second message; its reply, a status
-- byte and the frame, goes up as the length byte followed by the frame, with the buffer held; and
-- if no further packet waits, the engine is ready for the next interrupt.
pub reception :
    (r : Radio) (frame : List ℕ) (first second : ℕ)
    → r.pending_rx ≡ false
    → r.rx_buf_sl ≡ false
    → length r.rx_buf_r ≡ pkt_buff_size
    → length frame < pkt_buff_size
    → let asked = spi_reply (reading r) (first ∷ length frame ∷ []) in
      let read = spi_reply asked (second ∷ frame) in
      let buf = packet_buf frame r.rx_buf_r in
      let up = record read { rx_buf_sl = true; rx_buf_r = buf } in
      (fifop_occurred r ≡ ok (reading r, spi_async_rx ((0x30 ∷ 0 ∷ []) ∷ []) continue_rx ∷ []))
      × (rx_length asked
          ≡ ok (
            asked,
            spi_async_rx ((0x30 ∷ replicate (length frame) 0) ∷ []) (finish_rx (length frame)) ∷ [],
          ))
      × (rx_deliver read (length frame) ≡ ok (up, top_rx_done buf (length frame + 1) ∷ []))
      × (take (length frame + 1) buf ≡ length frame ∷ frame)
      × (rx_after up false ≡ ok (record up { pending_rx = false }, []))
unfolding fifop_occurred rx_length rx_after spi_reply
reception r frame first second idle free size small = (
  rw idle,
  ground arith,
  deliver_frame _ frame _ second free refl (omega arith),
  take-packet_buf frame r.rx_buf_r (omega arith),
  refl,
)

-- The length test lets 127 through, the longest frame of the standard; with the length byte it does
-- not fit the 127 bytes of the receive buffer, and the copy writes past its end.
pub rx_deliver-overflow :
    (r : Radio)
    → r.rx_buf_sl ≡ false
    → length r.rx_buf_r ≡ pkt_buff_size
    → get_or r.rx_in_buf 1 0 ≡ 127
    → (rx_length r ≡ ok (r, spi_async_rx ((0x30 ∷ replicate 127 0) ∷ []) (finish_rx 127) ∷ []))
      × (rx_deliver r 127 ≡ fault)
unfolding rx_length rx_deliver
rx_deliver-overflow r free size e =
    (rw e, ground (arith, memcpy_after_first-fault r.rx_buf_r r.rx_in_buf 127))

abbrev flush_message : Message
flush_message = (0x47 ∷ []) ∷ []

-- A length above 127, or a further packet in the FIFO after one was passed up, flushes the FIFO
-- twice, one message after the other, and then the engine is ready for the next interrupt; nothing
-- is passed up.
pub rx_flush_twice :
    (r : Radio)
    → 127 < get_or r.rx_in_buf 1 0
    → (rx_length r ≡ ok (r, spi_async_rx flush_message continue_flush_rx ∷ []))
      × (rx_after r true ≡ ok (r, spi_async_rx flush_message continue_flush_rx ∷ []))
      × (rx_flush_again r ≡ ok (r, spi_async_rx flush_message complete_flush_rx ∷ []))
      × (rx_flushed r ≡ ok (record r { pending_rx = false }, []))
unfolding rx_length rx_after rx_flush_again rx_flushed
rx_flush_twice r long = (ground arith, refl, refl, refl)

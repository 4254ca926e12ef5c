-- ===== src/Packet/Source.antt =====
-- `cc2520_packet_get_src` finds the source address wherever the header puts it.
use linux_cc2520_driver.Prelude.{
  ℕ, ◌/◌, ◌%◌, ◌^◌, ◌<◌, ◌≡◌, refl, ◌∙◌, Bool, true, false, not, List, ◌∷◌, ◌++◌, Buf, ◌==◌,
  if◌then◌else◌, arith,
}
use linux_cc2520_driver.Packet.{
  header_fcf, header_dsn, requires_ack_wait, requires_ack_reply, is_ack, dest_offset, read_source,
  get_src,
}
use linux_cc2520_driver.Packet.Bytes.{Fits-two_bytes, Fits-eight_bytes, of_bytes-to_bytes}
use linux_cc2520_driver.Packet.Frame.{
  Addr, absent, short, extended, addr_mode, addr_value, IsAddr, Header, IsHeader, bit, fcf, frame,
  dest_fields, src_fields,
}

not_zero : (b : Bool) → not (bit b == 0) ≡ b
not_zero b = ground arith

-- `get_src` as a function of the three fields of the frame control field that it reads.
by_mode : Buf → ℕ → ℕ → ℕ → ℕ
by_mode buf s d c =
    if s == 2
    then read_source buf (dest_offset d (c == 1)) (c == 1) 2
    else if s == 3
    then read_source buf (dest_offset d (c == 1)) (c == 1) 8
    else 0

get_src-by_mode :
    (buf : Buf) (s d c : ℕ)
    → header_fcf buf / 2 ^ 14 % 4 ≡ s
    → header_fcf buf / 2 ^ 10 % 4 ≡ d
    → header_fcf buf / 2 ^ 6 % 2 ≡ c
    → get_src buf ≡ by_mode buf s d c
unfolding get_src by_mode
get_src-by_mode buf s d c p q r = rw (p, q, r)

-- The source is where the offsets say.
by_mode-frame :
    (x y z n : ℕ) (dest_pan src_pan : ℕ) (intrapan : Bool) (dest src : Addr) (payload : List ℕ)
    → IsAddr src
    → by_mode
        (x
          ∷ y
          ∷ z
          ∷ n
          ∷ (dest_fields dest_pan dest ++ (src_fields src_pan intrapan dest src ++ payload)))
        (addr_mode src)
        (addr_mode dest)
        (bit intrapan)
      ≡ addr_value src
unfolding by_mode read_source dest_offset
by_mode-frame x y z n dp sp c d absent payload f = refl
by_mode-frame x y z n dp sp true absent (short a) payload f =
    of_bytes-to_bytes 2 a (Fits-two_bytes a f)
by_mode-frame x y z n dp sp true absent (extended a) payload f =
    of_bytes-to_bytes 8 a (Fits-eight_bytes a f)
by_mode-frame x y z n dp sp false absent (short a) payload f =
    of_bytes-to_bytes 2 a (Fits-two_bytes a f)
by_mode-frame x y z n dp sp false absent (extended a) payload f =
    of_bytes-to_bytes 8 a (Fits-eight_bytes a f)
by_mode-frame x y z n dp sp true (short b) (short a) payload f =
    of_bytes-to_bytes 2 a (Fits-two_bytes a f)
by_mode-frame x y z n dp sp true (short b) (extended a) payload f =
    of_bytes-to_bytes 8 a (Fits-eight_bytes a f)
by_mode-frame x y z n dp sp false (short b) (short a) payload f =
    of_bytes-to_bytes 2 a (Fits-two_bytes a f)
by_mode-frame x y z n dp sp false (short b) (extended a) payload f =
    of_bytes-to_bytes 8 a (Fits-eight_bytes a f)
by_mode-frame x y z n dp sp true (extended b) (short a) payload f =
    of_bytes-to_bytes 2 a (Fits-two_bytes a f)
by_mode-frame x y z n dp sp true (extended b) (extended a) payload f =
    of_bytes-to_bytes 8 a (Fits-eight_bytes a f)
by_mode-frame x y z n dp sp false (extended b) (short a) payload f =
    of_bytes-to_bytes 2 a (Fits-two_bytes a f)
by_mode-frame x y z n dp sp false (extended b) (extended a) payload f =
    of_bytes-to_bytes 8 a (Fits-eight_bytes a f)

module _ (len : ℕ) (h : Header) (payload : List ℕ) (v : IsHeader h) where
  header_fcf-frame : header_fcf (frame len h payload) ≡ fcf h
  unfolding header_fcf
  header_fcf-frame = omega arith

  mode_lt : (a : Addr) → addr_mode a < 4
  mode_lt a = ground arith

  bit_lt : (b : Bool) → bit b < 2
  bit_lt b = ground arith

  src_mode : fcf h / 2 ^ 14 % 4 ≡ addr_mode h.src
  src_mode = omega (arith, mode_lt h.src, mode_lt h.dest, bit_lt h.intrapan, bit_lt h.ack_req)

  dest_mode : fcf h / 2 ^ 10 % 4 ≡ addr_mode h.dest
  dest_mode = omega (arith, mode_lt h.src, mode_lt h.dest, bit_lt h.intrapan, bit_lt h.ack_req)

  compression : fcf h / 2 ^ 6 % 2 ≡ bit h.intrapan
  compression = omega (arith, mode_lt h.src, mode_lt h.dest, bit_lt h.intrapan, bit_lt h.ack_req)

  ack_bit : fcf h / 2 ^ 5 % 2 ≡ bit h.ack_req
  ack_bit = omega (arith, mode_lt h.src, mode_lt h.dest, bit_lt h.intrapan, bit_lt h.ack_req)

  low_type : fcf h % 2 ^ 3 ≡ h.frame_type
  low_type = omega (arith, mode_lt h.src, mode_lt h.dest, bit_lt h.intrapan, bit_lt h.ack_req)

  -- A frame asks for an acknowledgement exactly if its header says so, is an acknowledgement
  -- exactly if its type is 2, and has its header's sequence number.
  pub tests-frame :
      (requires_ack_wait (frame len h payload) ≡ h.ack_req)
      × (requires_ack_reply (frame len h payload) ≡ h.ack_req)
      × (is_ack (frame len h payload) ≡ (h.frame_type == 2))
      × (header_dsn (frame len h payload) ≡ h.dsn)
  unfolding requires_ack_wait requires_ack_reply is_ack header_dsn
  tests-frame = (
    rw (header_fcf-frame, ack_bit) (not_zero h.ack_req),
    rw (header_fcf-frame, ack_bit) (not_zero h.ack_req),
    rw (header_fcf-frame, low_type),
    refl,
  )

  -- Whatever the address modes and the PAN compression, the case of compression without a destination
  -- included, in which the source PAN is kept: the source address is read back from the frame; a frame
  -- that has none reads as source 0.
  pub get_src-frame : get_src (frame len h payload) ≡ addr_value h.src
  get_src-frame =
      get_src-by_mode (frame len h payload) (addr_mode h.src) (addr_mode h.dest) (bit h.intrapan)
        (rw header_fcf-frame src_mode) (rw header_fcf-frame dest_mode)
        (rw header_fcf-frame compression)
      ∙ by_mode-frame len _ _ h.dsn h.dest_pan h.src_pan h.intrapan h.dest h.src payload v.src_fits

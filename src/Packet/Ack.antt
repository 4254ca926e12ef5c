-- ===== src/Packet/Ack.antt =====
-- The acknowledgement that `cc2520_packet_create_ack` builds.
use linux_cc2520_driver.Prelude.{◌≤◌, ◌≡◌, refl, true, false, [], ◌∷◌, Buf, length, get_or, arith}
use linux_cc2520_driver.Packet.{
  header_dsn, requires_ack_reply, is_ack, is_ack_to, create_ack, ack_frame_length,
}

-- In a buffer of at least four bytes, the acknowledgement built for a packet is recognised as an
-- acknowledgement, as one to that packet, asks for no acknowledgement itself, starts with the
-- length 5, and leaves the size of the buffer as it was.
pub create_ack-is_ack :
    (pkt buf : Buf)
    → 4 ≤ length buf
    → (is_ack (create_ack pkt buf) ≡ true)
      × (is_ack_to (create_ack pkt buf) pkt ≡ true)
      × (requires_ack_reply (create_ack pkt buf) ≡ false)
      × (get_or (create_ack pkt buf) 0 0 ≡ ack_frame_length)
      × (length (create_ack pkt buf) ≡ length buf)
unfolding is_ack is_ack_to requires_ack_reply create_ack header_dsn
create_ack-is_ack pkt [] h = absurd (omega arith)
create_ack-is_ack pkt (a ∷ []) h = absurd (omega arith)
create_ack-is_ack pkt (a ∷ b ∷ []) h = absurd (omega arith)
create_ack-is_ack pkt (a ∷ b ∷ c ∷ []) h = absurd (omega arith)
create_ack-is_ack pkt (a ∷ b ∷ c ∷ d ∷ rest) h = (refl, ground arith, refl, refl, refl)

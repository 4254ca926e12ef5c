-- ===== src/Packet/Tests.antt =====
-- Packets of tests/write.c and others, and the theorems at them.
use linux_cc2520_driver.Prelude.{◌≡◌, refl, true, false, [], ◌∷◌, Buf, arith}
use linux_cc2520_driver.Packet.{
  header_fcf, header_dsn, requires_ack_wait, is_ack, create_ack, get_src,
}
use linux_cc2520_driver.Packet.Frame.{Header, IsHeader, absent, short, extended, frame}
use linux_cc2520_driver.Packet.Source.{get_src-frame}

-- The message of tests/write.c, with sequence number 7.
abbrev pub test_msg : Buf
test_msg = 0x0D ∷ 0x61 ∷ 0x88 ∷ 7 ∷ 0x22 ∷ 0x00 ∷ 0x01 ∷ 0x00 ∷ 0x05 ∷ 0x00 ∷ 0x72 ∷ 7 ∷ []

test_msg_fields :
    (header_fcf test_msg ≡ 0x8861)
    × (header_dsn test_msg ≡ 7)
    × (requires_ack_wait test_msg ≡ true)
    × (is_ack test_msg ≡ false)
    × (get_src test_msg ≡ 5)
unfolding header_fcf header_dsn requires_ack_wait is_ack get_src
test_msg_fields = (refl, refl, refl, refl, refl)

-- The same header, and one with extended addresses in two PANs.
abbrev short_header : Header
short_header = record {
  frame_type = 1;
  low_flags = 0;
  ack_req = true;
  intrapan = true;
  version = 0;
  dsn = 7;
  dest_pan = 0x22;
  dest = short 1;
  src_pan = 0x22;
  src = short 5;
}

abbrev long_header : Header
long_header = record short_header {
  intrapan = false;
  dest = extended 0x1122334455667788;
  src = extended 0xAABBCCDDEEFF0011;
}

short_header-frame : frame 0x0D short_header (0x72 ∷ 7 ∷ []) ≡ test_msg
short_header-frame = refl

short_header-IsHeader : IsHeader short_header
short_header-IsHeader = omega arith

long_header-IsHeader : IsHeader long_header
long_header-IsHeader = omega arith

long_header-source : get_src (frame 30 long_header (1 ∷ [])) ≡ 0xAABBCCDDEEFF0011
long_header-source = get_src-frame 30 long_header (1 ∷ []) long_header-IsHeader

-- PAN compression without a destination.
abbrev lone_header : Header
lone_header = record short_header { dest = absent }

lone_header-IsHeader : IsHeader lone_header
lone_header-IsHeader = omega arith

get_src-frame_example : get_src (frame 9 lone_header (1 ∷ [])) ≡ 5
get_src-frame_example = get_src-frame 9 lone_header (1 ∷ []) lone_header-IsHeader

create_ack_bytes : create_ack test_msg (1 ∷ 1 ∷ 1 ∷ 1 ∷ 8 ∷ 9 ∷ []) ≡ 5 ∷ 2 ∷ 0 ∷ 7 ∷ 8 ∷ 9 ∷ []
unfolding create_ack
create_ack_bytes = refl

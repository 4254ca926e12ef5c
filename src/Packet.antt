-- ===== src/Packet.antt =====
-- packet.c and packet.h: reading and building 802.15.4 headers in a byte buffer.
-- A `u8 *buf` is the bytes of its allocation; the length byte is first, then the packed
-- `ieee154_simple_header_t`. Multi-byte fields are little-endian, as on the driver's ARM target.
-- A bit field `(x >> k) & (2^n - 1)` is written `x / 2 ^ k % 2 ^ n`.
pub mod Bytes
pub mod Frame
pub mod Source
pub mod Ack
pub mod Copy
mod Tests
use linux_cc2520_driver.Prelude.{
  ℕ, ◌+◌, ◌*◌, ◌/◌, ◌%◌, ◌^◌, Bool, true, not, ◌&&◌, List, [], ◌∷◌, Buf, get_or, set, take, drop,
  ◌==◌, if◌then◌else◌,
}

-- enum ieee154_fcf_enums: bit positions in the frame control field
abbrev pub fcf_frame_type : ℕ
fcf_frame_type = 0

abbrev pub fcf_ack_req : ℕ
fcf_ack_req = 5

abbrev pub fcf_intrapan : ℕ
fcf_intrapan = 6

abbrev pub fcf_dest_addr_mode : ℕ
fcf_dest_addr_mode = 10

abbrev pub fcf_src_addr_mode : ℕ
fcf_src_addr_mode = 14

abbrev pub type_ack : ℕ
type_ack = 2

abbrev pub addr_none : ℕ
addr_none = 0

abbrev pub addr_short : ℕ
addr_short = 2

abbrev pub addr_ext : ℕ
addr_ext = 3

-- includes the FCF, DSN and FCS
abbrev pub ack_frame_length : ℕ
ack_frame_length = 5

-- IEEE154_TYPE_ACK << IEEE154_FCF_FRAME_TYPE
abbrev pub ack_frame_value : ℕ
ack_frame_value = type_ack * 2 ^ fcf_frame_type

-- `header->fcf`: the two bytes after the length byte.
unfoldable pub header_fcf : Buf → ℕ
header_fcf buf = get_or buf 1 0 + 256 * get_or buf 2 0

-- `header->dsn`
unfoldable pub header_dsn : Buf → ℕ
header_dsn buf = get_or buf 3 0

-- `header->fcf = fcf`, for a 16-bit `fcf`.
set_fcf : Buf → ℕ → Buf
set_fcf buf fcf = set (set buf 1 (fcf % 256)) 2 (fcf / 256)

-- `(header->fcf & (1 << IEEE154_FCF_ACK_REQ)) != 0`
unfoldable pub requires_ack_reply : Buf → Bool
unfolding header_fcf
requires_ack_reply buf = not (header_fcf buf / 2 ^ fcf_ack_req % 2 == 0)

unfoldable pub requires_ack_wait : Buf → Bool
unfolding header_fcf
requires_ack_wait buf = not (header_fcf buf / 2 ^ fcf_ack_req % 2 == 0)

-- `(header->fcf & IEEE154_ACK_FRAME_MASK) == IEEE154_ACK_FRAME_VALUE`; the mask is the low 3 bits.
unfoldable pub is_ack : Buf → Bool
unfolding header_fcf
is_ack buf = header_fcf buf % 2 ^ 3 == ack_frame_value

unfoldable pub is_ack_to : Buf → Buf → Bool
unfolding header_dsn
is_ack_to pending buf = header_dsn buf == header_dsn pending

-- `create_ack(pkt, buf)` writes the acknowledgement of `pkt` into `buf`.
unfoldable pub create_ack : Buf → Buf → Buf
unfolding header_dsn set_fcf
create_ack pkt buf = set (set (set_fcf buf ack_frame_value) 3 (header_dsn pkt)) 0 ack_frame_length

-- What `memcpy` of bytes into a zeroed little-endian integer gives.
unfoldable pub of_bytes : List ℕ → ℕ
of_bytes [] = 0
of_bytes (b ∷ bs) = b + 256 * of_bytes bs

-- `src_addr_offset` after the first chain of tests
dest_offset : ℕ → Bool → ℕ
dest_offset dest_addr_mode pan_compression =
    if dest_addr_mode == addr_short
    then 4 + 4
    else if dest_addr_mode == addr_ext
    then 4 + 10
    else if pan_compression
    then 4 + 2
    else 4

-- The `n` bytes from `offset` on, after the source PAN if there is one.
read_source : Buf → ℕ → Bool → ℕ → ℕ
unfolding of_bytes
read_source buf offset pan_compression n =
    of_bytes (take n (drop (if not pan_compression then offset + 2 else offset) buf))

unfoldable pub get_src : Buf → ℕ
unfolding header_fcf dest_offset read_source
get_src buf =
    let src_addr_mode = header_fcf buf / 2 ^ fcf_src_addr_mode % 4 in
    let dest_addr_mode = header_fcf buf / 2 ^ fcf_dest_addr_mode % 4 in
    let pan_compression = header_fcf buf / 2 ^ fcf_intrapan % 2 == 1 in
    let offset = dest_offset dest_addr_mode pan_compression in
    if src_addr_mode == addr_short
    then read_source buf offset pan_compression 2
    else if src_addr_mode == addr_ext
    then read_source buf offset pan_compression 8
    else 0

-- ===== src/Packet/Frame.antt =====
-- An 802.15.4 MAC header as the standard lays it out, independent of packet.c: the frame control
-- field, the sequence number, then the destination PAN and address, the source PAN (left out under
-- PAN compression, where it is the destination's) and the source address.
use linux_cc2520_driver.Prelude.{
  ℕ, ◌+◌, ◌*◌, ◌/◌, ◌%◌, ◌^◌, ◌<◌, Bool, true, false, List, [], ◌∷◌, ◌++◌, Buf, if◌then◌else◌,
}
use linux_cc2520_driver.Packet.Bytes.{to_bytes}

pub data Addr : Type 0 where
  absent : Addr
  short : ℕ → Addr
  extended : ℕ → Addr

abbrev pub addr_mode : Addr → ℕ
addr_mode absent = 0
addr_mode (short a) = 2
addr_mode (extended a) = 3

abbrev pub addr_bytes : Addr → List ℕ
addr_bytes absent = []
addr_bytes (short a) = to_bytes 2 a
addr_bytes (extended a) = to_bytes 8 a

-- The number that an address stands for; 0 where there is none.
abbrev pub addr_value : Addr → ℕ
addr_value absent = 0
addr_value (short a) = a
addr_value (extended a) = a

abbrev pub IsAddr : Addr → Type 0
IsAddr absent = Unit
IsAddr (short a) = a < 2 ^ 16
IsAddr (extended a) = a < 2 ^ 64

pub record Header : Type 0 where
  pub frame_type : ℕ
  -- security enabled and frame pending
  pub low_flags : ℕ
  pub ack_req : Bool
  pub intrapan : Bool
  pub version : ℕ
  pub dsn : ℕ
  pub dest_pan : ℕ
  pub dest : Addr
  pub src_pan : ℕ
  pub src : Addr

abbrev pub bit : Bool → ℕ
bit b = if b then 1 else 0

abbrev pub fcf : Header → ℕ
fcf h =
    h.frame_type
    + 8 * h.low_flags
    + 32 * bit h.ack_req
    + 64 * bit h.intrapan
    + 1024 * addr_mode h.dest
    + 4096 * h.version
    + 16384 * addr_mode h.src

pub record IsHeader (h : Header) : Type 0 where
  pub frame_type_fits : h.frame_type < 8
  pub low_flags_fit : h.low_flags < 4
  pub version_fits : h.version < 4
  pub src_fits : IsAddr h.src

abbrev pub dest_fields : ℕ → Addr → List ℕ
dest_fields pan absent = []
dest_fields pan (short a) = to_bytes 2 pan ++ to_bytes 2 a
dest_fields pan (extended a) = to_bytes 2 pan ++ to_bytes 8 a

-- PAN compression leaves the source PAN out only where the frame has a destination PAN to share: a
-- frame without destination has the PAN of its source, whatever the compression bit.
abbrev pub src_pan_field : ℕ → Bool → Addr → List ℕ
src_pan_field pan false dest = to_bytes 2 pan
src_pan_field pan true absent = to_bytes 2 pan
src_pan_field pan true dest = []

abbrev pub src_fields : ℕ → Bool → Addr → Addr → List ℕ
src_fields pan intrapan dest absent = []
src_fields pan intrapan dest (short a) = src_pan_field pan intrapan dest ++ to_bytes 2 a
src_fields pan intrapan dest (extended a) = src_pan_field pan intrapan dest ++ to_bytes 8 a

-- The frame with its PHY length byte in front, as the driver's buffers hold it.
abbrev pub frame : ℕ → Header → List ℕ → Buf
frame len h payload =
    len
    ∷ (fcf h % 256)
    ∷ (fcf h / 256)
    ∷ h.dsn
    ∷ (dest_fields h.dest_pan h.dest ++ (src_fields h.src_pan h.intrapan h.dest h.src ++ payload))

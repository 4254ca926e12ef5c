-- ===== src/Radio/Frames.antt =====
-- What the transmit message puts into the chip's transmit FIFO.
use linux_cc2520_driver.Prelude.{
  ℕ, zero, suc, ◌+◌, ◌-◌, ◌≤◌, ◌≡◌, refl, ap, ◌∙◌, sym, Bool, List, [], ◌∷◌, ◌++◌, Buf, length,
  get_or, take, drop, ◌==◌, if◌then◌else◌, arith,
}
use mathlib.Core.List.{append-nil}
use linux_cc2520_driver.Config.{spi_buff_size, pkt_buff_size}
use linux_cc2520_driver.Radio.State.{Radio, Message}
use linux_cc2520_driver.Radio.Tx.{copy_bytes, tx_message}

-- The bytes that one transfer adds to the FIFO: all that follow TXBUF, which may come after the
-- one-byte SFLUSHRX; no other transfer of the driver adds any.
abbrev pub fifo_bytes : List ℕ → List ℕ
fifo_bytes [] = []
fifo_bytes (op ∷ rest) =
    let later = fifo_bytes rest in if op == 0x3A then rest else if op == 0x47 then later else []

abbrev pub fifo : Message → List ℕ
fifo [] = []
fifo (t ∷ ts) = fifo_bytes t ++ fifo ts

-- The bytes that a message needs in `tx_buf`.
abbrev pub message_length : Message → ℕ
message_length [] = 0
message_length (t ∷ ts) = length t + message_length ts

length-copy_bytes : (n i : ℕ) (buf : Buf) → length (copy_bytes n i buf) ≡ n
unfolding copy_bytes
length-copy_bytes zero i buf = refl
length-copy_bytes (suc n) i buf = ap suc (length-copy_bytes n (i + 1) buf)

copy_bytes-shift :
    (n i : ℕ) (x : ℕ) (buf : Buf) → copy_bytes n (suc i) (x ∷ buf) ≡ copy_bytes n i buf
unfolding copy_bytes
copy_bytes-shift zero i x buf = refl
copy_bytes-shift (suc n) i x buf =
    let e : suc i + 1 ≡ suc (i + 1) = omega arith in
    rw e (ap (◌∷◌ (get_or buf i 0)) (copy_bytes-shift n (i + 1) x buf))

-- The loop copies a prefix of what is left of the buffer.
pub copy_bytes-take :
    (n i : ℕ) (buf : Buf) → i + n ≤ length buf → copy_bytes n i buf ≡ take n (drop i buf)
unfolding copy_bytes
copy_bytes-take zero i buf h = refl
copy_bytes-take (suc n) zero [] h = absurd (omega arith)
copy_bytes-take (suc n) (suc i) [] h = absurd (omega arith)
copy_bytes-take (suc n) zero (x ∷ buf) h =
    ap (◌∷◌ x) (copy_bytes-shift n 0 x buf ∙ copy_bytes-take n 0 buf (omega arith))
copy_bytes-take (suc n) (suc i) (x ∷ buf) h =
    copy_bytes-shift (suc n) i x buf ∙ copy_bytes-take (suc n) i buf (omega arith)

take-nil : (n : ℕ) → take {A = ℕ} n [] ≡ []
take-nil zero = refl
take-nil (suc n) = refl

take-split : (a b : ℕ) (buf : Buf) → take a buf ++ take b (drop a buf) ≡ take (a + b) buf
take-split zero b buf = let e : 0 + b ≡ b = omega arith in rw e
take-split (suc a) b [] = rw (take-nil b) (sym (take-nil (suc a + b)))
take-split (suc a) b (x ∷ buf) =
    let e : suc a + b ≡ suc (a + b) = omega arith in rw e (ap (◌∷◌ x) (take-split a b buf))

header_bytes : (buf : Buf) → 3 ≤ length buf → copy_bytes 3 0 buf ≡ take 3 buf
header_bytes buf h = copy_bytes-take 3 0 buf (omega arith)

whole_packet :
    (len : ℕ) (buf : Buf)
    → 3 ≤ len
    → len ≤ length buf
    → copy_bytes 3 0 buf ++ copy_bytes (len - 3) 3 buf ≡ take len buf
whole_packet len buf h have =
    let e : 3 + (len - 3) ≡ len = omega arith in
    rw (header_bytes buf (omega arith), copy_bytes-take (len - 3) 3 buf (omega arith))
      (take-split 3 (len - 3) buf ∙ ap (λ n. take n buf) e)

three_bytes : (r : Radio) → r.tx_buf_r_len ≡ 3 → copy_bytes (r.tx_buf_r_len - 3) 3 r.tx_buf_r ≡ []
unfolding copy_bytes
three_bytes r e = rw e

pub tx_message_bytes :
    (r : Radio) (flush : Bool)
    → 3 ≤ r.tx_buf_r_len
    → r.tx_buf_r_len ≤ length r.tx_buf_r
    → fifo (tx_message r flush) ≡ take r.tx_buf_r_len r.tx_buf_r
unfolding tx_message
tx_message_bytes r flush h have = ground (
  arith,
  whole_packet r.tx_buf_r_len r.tx_buf_r h have,
  three_bytes r,
  append-nil (copy_bytes (r.tx_buf_r_len - 3) 3 r.tx_buf_r),
)

pub tx_message_fits :
    (r : Radio) (flush : Bool)
    → r.tx_buf_r_len ≤ pkt_buff_size
    → message_length (tx_message r flush) ≤ spi_buff_size
unfolding tx_message
tx_message_fits r flush small = ground (arith, length-copy_bytes (r.tx_buf_r_len - 3) 3 r.tx_buf_r)

-- For a packet of at least its length byte and frame control field, whether or not the receive FIFO
-- is flushed first: the transmit FIFO gets exactly the packet, in order; the first transfer puts length
-- and frame control field there, neither less nor more, and the second is STXON alone, which starts
-- the transmission; and the message fits the 256 bytes of `tx_buf`.
pub tx_message-fifo :
    (r : Radio) (flush : Bool)
    → 3 ≤ r.tx_buf_r_len
    → r.tx_buf_r_len ≤ pkt_buff_size
    → r.tx_buf_r_len ≤ length r.tx_buf_r
    → (fifo (tx_message r flush) ≡ take r.tx_buf_r_len r.tx_buf_r)
      × (fifo_bytes (get_or (tx_message r flush) 0 []) ≡ take 3 r.tx_buf_r)
      × (get_or (tx_message r flush) 1 [] ≡ 0x43 ∷ [])
      × (message_length (tx_message r flush) ≤ spi_buff_size)
unfolding tx_message
tx_message-fifo r flush h small have = (
  tx_message_bytes r flush h have,
  ground (arith, header_bytes r.tx_buf_r (omega (arith, h, have))),
  ground arith,
  tx_message_fits r flush small,
)

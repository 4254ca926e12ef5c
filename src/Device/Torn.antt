-- ===== src/Device/Torn.antt =====
-- interface.c: `interface_read` while packets arrive. `copy_to_user` copies byte by byte, and the
-- interrupt that ends in `cc2520_interface_rx_done` may come before each byte: nothing keeps it off
-- `rx_buf_c`. The length for the copy is taken before it, the one that is returned after it.
use linux_cc2520_driver.Prelude.{
  ℕ, zero, suc, ◌+◌, ◌≤◌, ◌≡◌, refl, true, Option, none, some, List, [], ◌∷◌, ◌++◌, Buf, Outcome,
  ok, ◌>>=◌, length, take, drop, get_or, replicate, memcpy-ok, length-copy, arith,
}
use linux_cc2520_driver.Radio.Tx.{copy_bytes}
use linux_cc2520_driver.Radio.Frames.{copy_bytes-take}
use linux_cc2520_driver.Device.{Device, Return, value, rx_done, read_returns, read_woken}

abbrev pub Packet : Type 0
Packet = Buf × ℕ

-- What happens before a byte is copied.
unfoldable pub arrive : Device → Option Packet → Outcome Device
arrive d none = ok d
arrive d (some (buf, len)) = rx_done d buf len

-- `copy_to_user` of the bytes from `i` on, one for each entry of the list.
unfoldable pub copy_live : ℕ → List (Option Packet) → Device → Outcome (Device × List ℕ)
unfolding arrive
copy_live i [] d = ok (d, [])
copy_live i (a ∷ events) d = do
  d' ← arrive d a
  (e, bytes) ← copy_live (i + 1) events d'
  ok (e, get_or d'.rx_buf_c i 0 ∷ bytes)

-- `interface_read` after it has been woken. `events` has an entry for each byte, `last` comes after them.
unfoldable pub read_live : Device → List (Option Packet) → Option Packet → Outcome (Return × List ℕ)
unfolding copy_live read_returns
read_live d events last = do
  (e, bytes) ← copy_live 0 events d
  e' ← arrive e last
  ok (read_returns e', bytes)

copy_live-quiet :
    (n i : ℕ) (d : Device) → copy_live i (replicate n none) d ≡ ok (d, copy_bytes n i d.rx_buf_c)
unfolding copy_live arrive copy_bytes
copy_live-quiet zero i d = refl
copy_live-quiet (suc n) i d = rw (copy_live-quiet n (i + 1) d)

copy_live-once :
    (k n i : ℕ) (d e : Device) (p : Packet)
    → arrive d (some p) ≡ ok e
    → copy_live i (replicate k none ++ some p ∷ replicate n none) d
      ≡ ok (e, copy_bytes k i d.rx_buf_c ++ copy_bytes (suc n) (i + k) e.rx_buf_c)
unfolding copy_live arrive copy_bytes
copy_live-once zero n i d e p a =
    let here : i + 0 ≡ i = omega arith in rw (here, a, copy_live-quiet n (i + 1) e)
copy_live-once (suc k) n i d e p a =
    let there : i + suc k ≡ (i + 1) + k = omega arith in
    rw (there, copy_live-once k n (i + 1) d e p a)

read_live-quiet :
    (d : Device)
    → d.rx_pkt_len ≤ length d.rx_buf_c
    → read_live d (replicate d.rx_pkt_len none) none ≡ ok (read_woken d true)
unfolding read_live arrive read_woken
read_live-quiet d h =
    let whole = copy_bytes-take d.rx_pkt_len 0 d.rx_buf_c (omega (arith, h)) in
    rw (copy_live-quiet d.rx_pkt_len 0 d, whole)

read_live-last :
    (d : Device) (buf : Buf) (len : ℕ)
    → d.rx_pkt_len ≤ length d.rx_buf_c
    → len ≤ length buf
    → len ≤ length d.rx_buf_c
    → read_live d (replicate d.rx_pkt_len none) (some (buf, len))
      ≡ ok (value len, take d.rx_pkt_len d.rx_buf_c)
unfolding read_live arrive rx_done
read_live-last d buf len h k room =
    let whole = copy_bytes-take d.rx_pkt_len 0 d.rx_buf_c (omega (arith, h)) in
    rw (copy_live-quiet d.rx_pkt_len 0 d, whole, memcpy-ok d.rx_buf_c buf len room k)

-- A read returns what `read_woken` says if no packet arrives while it copies. A packet that arrives
-- before the byte at `before` leaves the reader with the first bytes of the old packet, the rest of
-- the old length from the new content of the buffer, and the new length; one that arrives after the
-- last byte, with the old packet and the new length.
pub read_live-torn :
    (d : Device) (before after : ℕ) (buf : Buf) (len : ℕ)
    → before + suc after ≡ d.rx_pkt_len
    → d.rx_pkt_len ≤ length d.rx_buf_c
    → len ≤ length buf
    → len ≤ length d.rx_buf_c
    → (read_live d (replicate d.rx_pkt_len none) none ≡ ok (read_woken d true))
      × (read_live d (replicate before none ++ some (buf, len) ∷ replicate after none) none
          ≡ ok (
            value len,
            take before d.rx_buf_c
                ++ take (suc after) (drop before (take len buf ++ drop len d.rx_buf_c)),
          ))
      × (read_live d (replicate d.rx_pkt_len none) (some (buf, len))
          ≡ ok (value len, take d.rx_pkt_len d.rx_buf_c))
unfolding read_live arrive rx_done
read_live-torn d before after buf len e h k room =
    let stored = record d { rx_pkt_len = len; rx_buf_c = take len buf ++ drop len d.rx_buf_c } in
    let arrives : arrive d (some (buf, len)) ≡ ok stored =
      rw (memcpy-ok d.rx_buf_c buf len room k) in
    let first = copy_bytes-take before 0 d.rx_buf_c (omega (arith, e, h)) in
    let rest =
      copy_bytes-take (suc after) before stored.rx_buf_c
        (omega (arith, e, h, length-copy d.rx_buf_c buf len room k)) in
    let at : 0 + before ≡ before = omega arith in
    (
      read_live-quiet d h,
      rw (copy_live-once before after 0 d stored (buf, len) arrives, at, first, rest),
      read_live-last d buf len h k room,
    )

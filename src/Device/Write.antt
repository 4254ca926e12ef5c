-- ===== src/Device/Write.antt =====
-- What a write returns to the program that made it.
use Prim.Native.Nat.{min}
use linux_cc2520_driver.Prelude.{
  ℕ, ◌-◌, ◌≤◌, ◌≡◌, refl, Bool, some, [], ◌∷◌, ◌++◌, Buf, ok, fault, length, take, drop, memcpy,
  memcpy-ok, ◌==◌, if◌then◌else◌, arith,
}
use linux_cc2520_driver.Config.{pkt_buff_size}
use linux_cc2520_driver.Layer.{bottom_tx}
use linux_cc2520_driver.Device.{Device, waiting, value, tx_done, write_begin, write_end}

-- The variables while a packet is under way.
abbrev pub taken : Device → Buf → ℕ → Device
taken d user len = record d {
  tx_sem = d.tx_sem - 1;
  tx_buf_c = take len user ++ drop len d.tx_buf_c;
  tx_pkt_len = len;
}

-- A write of at most 127 bytes, with the semaphore free and no completion left over, hands down a
-- copy of the packet and waits; once its packet is completed it returns the number of bytes if
-- the status is success, and otherwise the status itself as a number above 0; both semaphores are
-- then as before.
pub write_returns :
    (d : Device) (nonblock interrupted : Bool) (user : Buf) (len status : ℕ)
    → d.tx_sem ≡ 1
    → d.tx_done_sem ≡ 0
    → len ≤ length user
    → len ≤ pkt_buff_size
    → length d.tx_buf_c ≡ pkt_buff_size
    → (done : Device) × (write_begin d nonblock interrupted (some user) len
        ≡ ok (
          taken d user len,
          waiting len,
          bottom_tx (take len user ++ drop len d.tx_buf_c) len ∷ [],
        ))
      × (write_end (tx_done (taken d user len) status) len
          ≡ ok (done, value (if status == 0 then len else status)))
      × (done.tx_sem ≡ 1)
      × (done.tx_done_sem ≡ 0)
unfolding write_begin write_end tx_done
write_returns d nonblock interrupted user len status free none_left have small size =
    let cut : min len 128 ≡ len = omega arith in
    (
      record (taken d user len) { tx_result = status; tx_sem = 1; tx_done_sem = 0 },
      ground (arith, cut, memcpy-ok d.tx_buf_c user len (omega arith) have),
      ground arith,
      refl,
      refl,
    )

-- A write of 128 bytes or more, which the buffer size in the test permits, copies 128 bytes into the
-- 127 bytes of `tx_buf_c`.
pub write_begin-overflow :
    (d : Device) (nonblock interrupted : Bool) (user : Buf) (len : ℕ)
    → d.tx_sem ≡ 1
    → 128 ≤ len
    → length d.tx_buf_c ≡ pkt_buff_size
    → write_begin d nonblock interrupted (some user) len ≡ fault
unfolding write_begin memcpy
write_begin-overflow d nonblock interrupted user len free long size = ground arith

-- ===== src/Device.antt =====
-- interface.c: the character device. `write` blocks inside for the completion of its packet, so it is
-- two functions; the semaphores are their counts. `copy_from_user` is the bytes that it copied, or
-- `none` where it fails (what a failing copy leaves in `tx_buf_c` is left out, the next write
-- replaces it), and `copy_to_user` whether it succeeds.
pub mod World
pub mod Payload
pub mod Advance
pub mod Report
pub mod Exclusion
pub mod Write
pub mod Ioctl
pub mod Registration
pub mod Readers
pub mod Log
pub mod Torn
pub mod Late
pub mod Hold
mod Tests
use Prim.Native.Nat.{min}
use linux_cc2520_driver.Prelude.{
  ℕ, suc, ◌+◌, ◌-◌, Bool, true, false, Option, none, some, List, [], ◌∷◌, Buf, Outcome, ok, fault,
  blocked, ◌>>=◌, memcpy, take, ltb, ◌==◌, if◌then◌else◌,
}
use linux_cc2520_driver.Layer.{Effect, bottom_tx}

pub record Device : Type 0 where
  pub tx_buf_c : Buf
  pub rx_buf_c : Buf
  pub tx_pkt_len : ℕ
  pub rx_pkt_len : ℕ
  pub tx_sem : ℕ
  pub tx_done_sem : ℕ
  pub tx_result : ℕ

-- The variables after a successful `cc2520_interface_init`, for the bytes that `kmalloc` returned.
unfoldable pub init : Buf → Buf → Device
init tx_fresh rx_fresh = record {
  tx_buf_c = tx_fresh;
  rx_buf_c = rx_fresh;
  tx_pkt_len = 0;
  rx_pkt_len = 0;
  tx_sem = 1;
  tx_done_sem = 0;
  tx_result = 0;
}

-- What a system call returns: a negative error number, or a number of at least 0.
pub data Errno : Type 0 where
  eagain erestartsys efault : Errno

pub data Return : Type 0 where
  error : Errno → Return
  value : ℕ → Return

-- `write` up to the wait: it has returned, or it waits with the length that it will report.
pub data Writing : Type 0 where
  returned : Return → Writing
  waiting : ℕ → Writing

-- `cc2520_interface_tx_done`; `up` on the semaphore.
unfoldable pub tx_done : Device → ℕ → Device
tx_done d status = record d { tx_result = status; tx_done_sem = d.tx_done_sem + 1 }

-- `cc2520_interface_rx_done`
unfoldable pub rx_done : Device → Buf → ℕ → Outcome Device
rx_done d buf len = do
  rx_buf_c ← memcpy d.rx_buf_c buf len
  ok (record d { rx_pkt_len = len; rx_buf_c = rx_buf_c })

-- Steps 2 and 3 of `interface_write`, with the lock taken. `user` holds the bytes that
-- `copy_from_user` copied.
unfoldable pub write_locked : Device → Option Buf → ℕ → Outcome (Device × Writing × List Effect)
write_locked d none len = ok (record d { tx_sem = d.tx_sem + 1 }, returned (error efault), [])
write_locked d (some user) len = do
  let pkt_len = min len 128
  tx_buf_c ← memcpy d.tx_buf_c user pkt_len
  ok (
    record d { tx_buf_c = tx_buf_c; tx_pkt_len = pkt_len },
    waiting pkt_len,
    bottom_tx tx_buf_c pkt_len ∷ [],
  )

-- `interface_write` up to `down(&tx_done_sem)`. `interrupted` says that a signal ends a wait for
-- `tx_sem`.
unfoldable pub write_begin :
    Device → Bool → Bool → Option Buf → ℕ → Outcome (Device × Writing × List Effect)
unfolding write_locked
write_begin d nonblock interrupted user len =
    if ltb 0 d.tx_sem
    then write_locked (record d { tx_sem = d.tx_sem - 1 }) user len
    else if nonblock
    then ok (d, returned (error eagain), [])
    else if interrupted
    then ok (d, returned (error erestartsys), [])
    else blocked

-- `interface_write` from `down(&tx_done_sem)` on: `return tx_result ? tx_result : pkt_len`.
-- The two semaphores come before the result is read.
unfoldable pub write_wakes : Device → Outcome Device
write_wakes d =
    if ltb 0 d.tx_done_sem
    then ok (record d { tx_done_sem = d.tx_done_sem - 1; tx_sem = d.tx_sem + 1 })
    else blocked

unfoldable pub write_returns : Device → ℕ → Return
write_returns d pkt_len = value (if d.tx_result == 0 then pkt_len else d.tx_result)

-- The same with nothing in between.
unfoldable pub write_end : Device → ℕ → Outcome (Device × Return)
unfolding write_wakes write_returns
write_end d pkt_len = do d' ← write_wakes d; ok (d', write_returns d' pkt_len)

-- `interface_read` after it has been woken: `copy_to_user(buf, rx_buf_c, rx_pkt_len)`, and after that
-- `return rx_pkt_len`, which reads the length again.
unfoldable pub read_copies : Device → List ℕ
read_copies d = take d.rx_pkt_len d.rx_buf_c

unfoldable pub read_returns : Device → Return
read_returns d = value d.rx_pkt_len

-- Both with nothing in between (Device/Torn is about packets that arrive meanwhile): the result, and the
-- bytes for the reader.
unfoldable pub read_woken : Device → Bool → Return × List ℕ
unfolding read_copies read_returns
read_woken d copied = if copied then (read_returns d, read_copies d) else (error efault, [])

-- ===== src/Radio/Tx.antt =====
-- The transmit engine: the radio is locked, the packet copied, and a chain of SPI messages driven by
-- their completion callbacks; the frame's end comes as the falling edge of SFD.
use Prim.Native.Nat.{bit_or}
use linux_cc2520_driver.Prelude.{
  ℕ, zero, suc, ◌+◌, ◌-◌, ◌/◌, ◌%◌, ◌^◌, Bool, true, false, List, [], ◌∷◌, ◌++◌, Buf, ok, ◌>>=◌,
  memcpy, get_or, ltb, ◌==◌, if◌then◌else◌,
}
use linux_cc2520_driver.Config.{tx_success, tx_failed, neg_u8}
use linux_cc2520_driver.Radio.Opcodes
use linux_cc2520_driver.Radio.RegisterMap
use linux_cc2520_driver.Radio.RegisterMap.{address}
use linux_cc2520_driver.Radio.State.{
  Radio, State, tx, continue_tx_check, continue_tx, complete_flush_tx, Message, RadioEffect,
  spi_async_tx, top_tx_done, RadioHandled, lock, unlock, tx_unlock_spi, tx_unlock_sfd,
}

-- `cc2520_radio_beginTx`
unfoldable pub begin_tx : RadioEffect
begin_tx = spi_async_tx ((Opcodes.cmd_srfoff ∷ []) ∷ []) continue_tx_check

-- `cc2520_radio_tx`
unfoldable pub tx_packet : Radio → Buf → ℕ → RadioHandled
unfolding lock begin_tx
tx_packet r buf len = do
  r' ← lock r tx
  tx_buf_r ← memcpy r'.tx_buf_r buf len
  ok (record r' { tx_buf_r = tx_buf_r; tx_buf_r_len = len }, begin_tx ∷ [])

-- `for (…) tx_buf[…] = tx_buf_r[i]`, for the `n` indices from `i` on
unfoldable pub copy_bytes : ℕ → ℕ → Buf → List ℕ
copy_bytes zero i buf = []
copy_bytes (suc n) i buf = get_or buf i 0 ∷ copy_bytes n (i + 1) buf

-- The transfers `tsfer1` to `tsfer4` of `cc2520_radio_continueTx_check`; `fifo` is the FIFO pin.
unfoldable pub tx_message : Radio → Bool → Message
unfolding copy_bytes
tx_message r fifo =
    let header =
      (if fifo then Opcodes.cmd_sflushrx ∷ [] else [])
      ++ (Opcodes.cmd_txbuf ∷ copy_bytes 3 0 r.tx_buf_r) in
    let rest = Opcodes.cmd_txbuf ∷ copy_bytes (r.tx_buf_r_len - 3) 3 r.tx_buf_r in
    let check = bit_or Opcodes.cmd_register_read (address RegisterMap.excflag0) ∷ 0 ∷ [] in
    if ltb 3 r.tx_buf_r_len
    then header ∷ (Opcodes.cmd_stxon ∷ []) ∷ rest ∷ check ∷ []
    else header ∷ (Opcodes.cmd_stxon ∷ []) ∷ check ∷ []

-- `cc2520_radio_continueTx_check`
unfoldable pub tx_check : Radio → Bool → RadioHandled
unfolding tx_message
tx_check r fifo = ok (r, spi_async_tx (tx_message r fifo) continue_tx ∷ [])

-- `cc2520_radio_flushTx`
unfoldable pub flush_tx : RadioEffect
flush_tx =
    spi_async_tx
      ((Opcodes.cmd_sflushtx
          ∷ bit_or Opcodes.cmd_register_write (address RegisterMap.excflag0)
          ∷ 0
          ∷ [])
        ∷ [])
      complete_flush_tx

-- `cc2520_radio_completeFlushTx`
unfoldable pub tx_flushed : Radio → RadioHandled
unfolding unlock
tx_flushed r = ok (unlock r, top_tx_done (neg_u8 tx_failed) ∷ [])

-- `cc2520_radio_completeTx`
complete_tx : Radio → RadioHandled
unfolding unlock
complete_tx r = ok (unlock r, top_tx_done tx_success ∷ [])

-- The end of both unlock functions' callers: complete if this was the last of the two.
finish_if_last : Radio → State × Bool → RadioHandled
unfolding complete_tx
finish_if_last r (state, true) = complete_tx (record r { radio_state = state })
finish_if_last r (state, false) = ok (record r { radio_state = state }, [])

-- `cc2520_radio_continueTx`; `exceptions` is the second byte read by `tsfer4`, whose bit 3 is
-- CC2520_TX_UNDERFLOW.
unfoldable pub tx_written : Radio → ℕ → RadioHandled
unfolding finish_if_last tx_unlock_spi flush_tx
tx_written r exceptions =
    if exceptions / 2 ^ 3 % 2 == 1
    then ok (r, flush_tx ∷ [])
    else finish_if_last r (tx_unlock_spi r.radio_state)

-- `cc2520_radio_sfd_occurred`
unfoldable pub sfd_occurred : Radio → ℕ → Bool → RadioHandled
unfolding finish_if_last tx_unlock_sfd
sfd_occurred r nano_timestamp is_high =
    let r' = record r { sfd_nanos_ts = nano_timestamp } in
    if is_high then ok (r', []) else finish_if_last r' (tx_unlock_sfd r'.radio_state)

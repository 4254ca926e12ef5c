-- ===== src/Packet/Copy.antt =====
-- A copy of at least the first four bytes of a packet has its header.
use linux_cc2520_driver.Prelude.{ℕ, ◌≤◌, ◌≡◌, Buf, take, ◌++◌, length, get_or-take_append, arith}
use linux_cc2520_driver.Packet.{header_fcf, header_dsn, requires_ack_reply, is_ack, is_ack_to}

module _ (n : ℕ) (buf rest : Buf) (room : 4 ≤ n) (have : n ≤ length buf) where
  header_fcf-copy : header_fcf (take n buf ++ rest) ≡ header_fcf buf
  unfolding header_fcf
  header_fcf-copy =
      rw (get_or-take_append n 1 buf rest 0 (omega arith) have)
        (rw (get_or-take_append n 2 buf rest 0 (omega arith) have))

  pub header_dsn-copy : header_dsn (take n buf ++ rest) ≡ header_dsn buf
  unfolding header_dsn
  header_dsn-copy = get_or-take_append n 3 buf rest 0 (omega arith) have

  pub is_ack-copy : is_ack (take n buf ++ rest) ≡ is_ack buf
  unfolding is_ack
  is_ack-copy = rw header_fcf-copy

  pub requires_ack_reply-copy : requires_ack_reply (take n buf ++ rest) ≡ requires_ack_reply buf
  unfolding requires_ack_reply
  requires_ack_reply-copy = rw header_fcf-copy

  pub is_ack_to-copy : (b : Buf) → is_ack_to (take n buf ++ rest) b ≡ is_ack_to buf b
  unfolding is_ack_to
  is_ack_to-copy b = rw header_dsn-copy

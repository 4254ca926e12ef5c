-- ===== src/Unique/History.antt =====
-- What the filter promises, without its list: a packet is new exactly if its sequence number is not
-- the one of the packet last received from its source.
use linux_cc2520_driver.Prelude.{
  ℕ, Bool, false, Option, none, some, List, [], ◌∷◌, Buf, ◌==◌, if◌then◌else◌,
}
use linux_cc2520_driver.Packet.{header_dsn, get_src}
use linux_cc2520_driver.Layer.{Effect, top_rx_done}

-- The packets received, newest first.
abbrev pub History : Type 0
History = List Buf

unfoldable pub last_dsn : ℕ → History → Option ℕ
last_dsn src [] = none
last_dsn src (buf ∷ before) =
    if get_src buf == src then some (header_dsn buf) else last_dsn src before

abbrev pub is_seen : Option ℕ → ℕ → Bool
is_seen none dsn = false
is_seen (some d) dsn = d == dsn

unfoldable pub is_duplicate : History → Buf → Bool
is_duplicate before buf = is_seen (last_dsn (get_src buf) before) (header_dsn buf)

-- The packets passed up, for a sequence of packets with their lengths.
unfoldable pub delivered : History → List (Buf × ℕ) → List Effect
delivered before [] = []
delivered before ((buf, len) ∷ rest) =
    let later = delivered (buf ∷ before) rest in
    if is_duplicate before buf then later else top_rx_done buf len ∷ later

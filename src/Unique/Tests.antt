-- ===== src/Unique/Tests.antt =====
-- The filter on a few packets.
use linux_cc2520_driver.Prelude.{ℕ, ◌≡◌, refl, List, [], ◌∷◌, Buf, ok}
use linux_cc2520_driver.Layer.{top_rx_done}
use linux_cc2520_driver.Unique.{Nodes, init}
use linux_cc2520_driver.Unique.History.{last_dsn, is_duplicate, delivered}
use linux_cc2520_driver.Unique.Traffic.{receive_all, receive_all-delivered}
use linux_cc2520_driver.Packet.{header_dsn, get_src}

-- From source 5 with sequence numbers 7 and 8, and from source 6 with 7.
abbrev five_seven : Buf
five_seven = 9 ∷ 0x61 ∷ 0x88 ∷ 7 ∷ 0x22 ∷ 0 ∷ 1 ∷ 0 ∷ 5 ∷ 0 ∷ []

abbrev five_eight : Buf
five_eight = 9 ∷ 0x61 ∷ 0x88 ∷ 8 ∷ 0x22 ∷ 0 ∷ 1 ∷ 0 ∷ 5 ∷ 0 ∷ []

abbrev six_seven : Buf
six_seven = 9 ∷ 0x61 ∷ 0x88 ∷ 7 ∷ 0x22 ∷ 0 ∷ 1 ∷ 0 ∷ 6 ∷ 0 ∷ []

abbrev traffic : List (Buf × ℕ)
traffic =
    (five_seven, 10)
    ∷ (five_seven, 10)
    ∷ (six_seven, 10)
    ∷ (five_eight, 10)
    ∷ (five_eight, 10)
    ∷ (five_seven, 10)
    ∷ []

delivered-traffic :
    delivered [] traffic
    ≡ top_rx_done five_seven 10
      ∷ top_rx_done six_seven 10
      ∷ top_rx_done five_eight 10
      ∷ top_rx_done five_seven 10
      ∷ []
unfolding delivered is_duplicate last_dsn get_src header_dsn
delivered-traffic = refl

receive_all-delivered_example :
    (nodes : Nodes) × (receive_all init traffic ≡ ok (nodes, delivered [] traffic))
receive_all-delivered_example = receive_all-delivered traffic

-- No node can be allocated: the packet goes up all the same.

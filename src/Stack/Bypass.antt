-- ===== src/Stack/Bypass.antt =====
-- With LPL and CSMA disabled, the two layers are a wire.
use linux_cc2520_driver.Prelude.{
  ℕ, ◌≡◌, refl, false, List, [], ◌∷◌, ◌++◌, Buf, Outcome, ok, ◌>>=◌, arith,
}
use linux_cc2520_driver.Layer.{Effect, bottom_tx, top_tx_done, top_rx_done}
use linux_cc2520_driver.Lpl.{Lpl}
use linux_cc2520_driver.Csma.{Csma}
use linux_cc2520_driver.Lpl
use linux_cc2520_driver.Csma

-- A call that reaches the two layers: `tx` from above, `tx_done` and `rx_done` from below.
pub data Call : Type 0 where
  tx : Buf → ℕ → Call
  tx_done : ℕ → Call
  rx_done : Buf → ℕ → Call

-- The call that a wire makes.
abbrev pub forwarded : Call → Effect
forwarded (tx buf len) = bottom_tx buf len
forwarded (tx_done status) = top_tx_done status
forwarded (rx_done buf len) = top_rx_done buf len

abbrev pub forward_all : List Call → List Effect
forward_all [] = []
forward_all (c ∷ cs) = forwarded c ∷ forward_all cs

abbrev pub Pair : Type 0
Pair = Lpl × Csma

-- The calls that one layer makes are run by the other; those away from it leave the pair.
unfoldable pub to_csma : ℕ → Pair → List Effect → Outcome (Pair × List Effect)
to_csma rand_num (l, c) [] = ok ((l, c), [])
to_csma rand_num (l, c) (bottom_tx buf len ∷ es) = do
  (c', out) ← Csma.tx_packet c buf len rand_num
  (done, rest) ← to_csma rand_num (l, c') es
  ok (done, out ++ rest)
to_csma rand_num p (e ∷ es) = do (done, rest) ← to_csma rand_num p es; ok (done, e ∷ rest)

unfoldable pub to_lpl : Pair → List Effect → Outcome (Pair × List Effect)
to_lpl (l, c) [] = ok ((l, c), [])
to_lpl (l, c) (top_tx_done status ∷ es) = do
  (l', out) ← Lpl.tx_done l status
  (done, rest) ← to_lpl (l', c) es
  ok (done, out ++ rest)
to_lpl (l, c) (top_rx_done buf len ∷ es) = do
  (l', out) ← Lpl.rx_done l buf len
  (done, rest) ← to_lpl (l', c) es
  ok (done, out ++ rest)
to_lpl p (e ∷ es) = do (done, rest) ← to_lpl p es; ok (done, e ∷ rest)

-- A call through both layers.
unfoldable pub through : ℕ → Pair → Call → Outcome (Pair × List Effect)
unfolding to_csma to_lpl
through rand_num (l, c) (tx buf len) = do
  (l', es) ← Lpl.tx_packet l buf len
  to_csma rand_num (l', c) es
through rand_num (l, c) (tx_done status) = do (c', es) ← Csma.tx_done c status; to_lpl (l, c') es
through rand_num (l, c) (rx_done buf len) = do (c', es) ← Csma.rx_done c buf len; to_lpl (l, c') es

unfoldable pub through_all : ℕ → Pair → List Call → Outcome (Pair × List Effect)
unfolding through
through_all rand_num p [] = ok (p, [])
through_all rand_num p (call ∷ calls) = do
  (q, out) ← through rand_num p call
  (done, rest) ← through_all rand_num q calls
  ok (done, out ++ rest)

through-disabled :
    (l : Lpl) (c : Csma) (rand_num : ℕ) (call : Call)
    → l.lpl_enabled ≡ false
    → c.csma_enabled ≡ false
    → through rand_num (l, c) call ≡ ok ((l, c), forwarded call ∷ [])
unfolding through Lpl.tx_packet Csma.tx_packet Csma.tx_done Csma.rx_done Lpl.tx_done Lpl.rx_done
through-disabled l c rand_num (tx buf len) off_l off_c = ground arith
through-disabled l c rand_num (tx_done status) off_l off_c = ground arith
through-disabled l c rand_num (rx_done buf len) off_l off_c = ground arith

-- With both layers disabled, in whatever states they were left, any sequence of packets, completions
-- and received packets goes through lpl.c and csma.c as through a wire: the same calls come out, in
-- the same order with the same arguments, and neither layer changes.
pub through_all-wire :
    (l : Lpl) (c : Csma) (rand_num : ℕ) (calls : List Call)
    → l.lpl_enabled ≡ false
    → c.csma_enabled ≡ false
    → through_all rand_num (l, c) calls ≡ ok ((l, c), forward_all calls)
unfolding through_all
through_all-wire l c rand_num [] off_l off_c = refl
through_all-wire l c rand_num (call ∷ calls) off_l off_c =
    rw (through-disabled l c rand_num call off_l off_c)
      (rw (through_all-wire l c rand_num calls off_l off_c) refl)

-- ===== src/Radio/Rest.antt =====
-- The receive engine comes to rest: the completion that it waits for is one that returns.
use mathlib.Core.Bool.{false≢true}
use linux_cc2520_driver.Prelude.{
  ℕ, ◌≡◌, ◌<◌, refl, Bool, true, false, List, Buf, Outcome, ok, ◌>>=◌, is_ok, ap, ◌∙◌, fault,
  blocked, length, set, memcpy, length-drop, length-set, arith,
}
use linux_cc2520_driver.Radio.State.{
  Radio, continue_rx, finish_rx, continue_flush_rx, complete_flush_rx, RadioEffect,
}
use linux_cc2520_driver.Radio.Rx.{
  spi_reply, fifop_occurred, rx_length, rx_flush_again, rx_flushed, memcpy_after_first, rx_deliver,
  rx_after, release_rx,
}
use linux_cc2520_driver.Radio.RxWorld.{
  Stage, quiet, awaiting, delivered, RxWorld, settle, begin, Step, fifop, length_read, frame_read,
  after, flush_again, flushed, release, Reach, is_busy, Inv, Reach-Inv, begin-Inv,
}

-- How many SPI completions, and returns from the upper layers, are left at most.
abbrev pub rank : Stage → ℕ
rank quiet = 0
rank (awaiting continue_rx) = 5
rank (awaiting (finish_rx len)) = 4
rank delivered = 3
rank (awaiting continue_flush_rx) = 2
rank (awaiting complete_flush_rx) = 1

-- Whether a step is one of those.
abbrev pub is_completion : {w u : RxWorld} → Step w u → Bool
is_completion (fifop r es e eu) = false
is_completion (release eu) = false
is_completion _ = true

abbrev pub Descends : Bool → Stage → Stage → Type 0
Descends true from to = rank to < rank from
Descends false from to = to ≡ from

Step-Descends :
    {w u : RxWorld} (st : Step w u)
    → Inv w
    → is_busy w.stage ≡ true
    → Descends (is_completion st) w.stage u.stage
unfolding fifop_occurred rx_length rx_flush_again rx_flushed rx_deliver rx_after release_rx
    spi_reply
Step-Descends (fifop r es e eu) v b = ground arith
Step-Descends (length_read reply r es g e eu) v b = ground arith
Step-Descends (frame_read reply len r es g e eu) v b = ground arith
Step-Descends (after fifo r es g e eu) v b = ground arith
Step-Descends (flush_again r es g e eu) v b = ground arith
Step-Descends (flushed r es g e eu) v b = ground arith
Step-Descends (release eu) v b = ground arith

-- The handler that runs next at a stage, for the reply of the chip and the value of the FIFO pin.
abbrev pub completion : Stage → RxWorld → List ℕ → Bool → Outcome RxWorld
completion quiet w reply fifo = ok w
completion (awaiting continue_rx) w reply fifo = do
  (r, es) ← rx_length (spi_reply w.radio reply)
  ok (settle w quiet r es)
completion (awaiting (finish_rx len)) w reply fifo = do
  (r, es) ← rx_deliver (spi_reply w.radio reply) len
  ok (settle w delivered r es)
completion delivered w reply fifo = do (r, es) ← rx_after w.radio fifo; ok (settle w quiet r es)
completion (awaiting continue_flush_rx) w reply fifo = do
  (r, es) ← rx_flush_again w.radio
  ok (settle w quiet r es)
completion (awaiting complete_flush_rx) w reply fifo = do
  (r, es) ← rx_flushed w.radio
  ok (settle w quiet r es)

-- What `finishRx` needs: `rx_buf_sl` released, and room for the frame behind the length byte.
abbrev pub HasRoom : Stage → Radio → Type 0
HasRoom (awaiting (finish_rx len)) r =
    (r.rx_buf_sl ≡ false) × (len < length r.rx_buf_r) × (len < length r.rx_in_buf)
HasRoom _ r = Unit

rx_deliver-is_ok :
    (r : Radio) (len : ℕ) → HasRoom (awaiting (finish_rx len)) r → is_ok (rx_deliver r len) ≡ true
unfolding rx_deliver memcpy_after_first memcpy
rx_deliver-is_ok r len (free, out, within) = ground (
  arith,
  length-drop 1 (set r.rx_buf_r 0 len),
  length-set r.rx_buf_r 0 len,
  length-drop 1 r.rx_in_buf,
)

-- A handler that returns, whose step is a completion, brings the engine nearer to rest.
Nearer : Stage → RxWorld → Outcome RxWorld → Type 0
Nearer stage w m = (u : RxWorld) × (m ≡ ok u) × Step w u × (rank u.stage < rank stage)

Descends-rank :
    (done : Bool) (from to : Stage) → done ≡ true → Descends done from to → rank to < rank from
Descends-rank true from to e d = d
Descends-rank false from to e d = absurd (false≢true e)

returned :
    {stage : Stage} {w : RxWorld} (next : Stage) (handler : Outcome (Radio × List RadioEffect))
    → is_ok handler ≡ true
    → ((r : Radio) (es : List RadioEffect)
        → handler ≡ ok (r, es)
        → (st : Step w (settle w next r es)) × (is_completion st ≡ true))
    → w.stage ≡ stage
    → Inv w
    → is_busy stage ≡ true
    → Nearer stage w (do (r, es) ← handler; ok (settle w next r es))
unfolding Nearer
returned next fault o mk at v b = absurd (false≢true o)
returned next blocked o mk at v b = absurd (false≢true o)
returned {stage} {w} next (ok (r, es)) o mk at v b =
    let (st, complete) = mk r es refl in
    let busy : is_busy w.stage ≡ true = ap is_busy at ∙ b in
    let down =
      Descends-rank (is_completion st) w.stage (settle w next r es).stage complete
        (Step-Descends st v busy) in
    (settle w next r es, refl, st, omega (arith, down, ap rank at))

rx_length-is_ok : (r : Radio) → is_ok (rx_length r) ≡ true
unfolding rx_length
rx_length-is_ok r = ground arith

rx_after-is_ok : (r : Radio) (fifo : Bool) → is_ok (rx_after r fifo) ≡ true
unfolding rx_after
rx_after-is_ok r fifo = ground arith

completion-Nearer :
    (stage : Stage) (w : RxWorld) (reply : List ℕ) (fifo : Bool)
    → w.stage ≡ stage
    → Inv w
    → is_busy stage ≡ true
    → HasRoom stage (spi_reply w.radio reply)
    → Nearer stage w (completion stage w reply fifo)
unfolding rx_flush_again rx_flushed
completion-Nearer quiet w reply fifo at v b room = absurd (false≢true b)
completion-Nearer (awaiting continue_rx) w reply fifo at v b room =
    returned quiet _ (rx_length-is_ok (spi_reply w.radio reply))
      (λ r es e. (length_read reply r es at e refl, refl)) at v b
completion-Nearer (awaiting (finish_rx len)) w reply fifo at v b room =
    returned delivered _ (rx_deliver-is_ok (spi_reply w.radio reply) len room)
      (λ r es e. (frame_read reply len r es at e refl, refl)) at v b
completion-Nearer delivered w reply fifo at v b room =
    returned quiet _ (rx_after-is_ok w.radio fifo) (λ r es e. (after fifo r es at e refl, refl)) at
      v b
completion-Nearer (awaiting continue_flush_rx) w reply fifo at v b room =
    returned quiet (rx_flush_again w.radio) refl (λ r es e. (flush_again r es at e refl, refl)) at v
      b
completion-Nearer (awaiting complete_flush_rx) w reply fifo at v b room =
    returned quiet (rx_flushed w.radio) refl (λ r es e. (flushed r es at e refl, refl)) at v b

-- In every state reached from initialisation, whatever the chip replies and whatever the FIFO pin says:
-- where the engine is at work, the handler that it waits for returns and brings it nearer to rest, by
-- way of a packet or of the double flush, and nothing else moves it; so at most five such handlers lead
-- to rest. The handler that delivers a frame needs `rx_buf_sl` released, and a frame shorter than both
-- buffers, since it spins or overruns one of them otherwise.
pub rx_comes_to_rest :
    (in_fresh tx_fresh rx_fresh : Buf) {w : RxWorld} (reply : List ℕ) (fifo : Bool)
    → Reach (begin in_fresh tx_fresh rx_fresh) w
    → is_busy w.stage ≡ true
    → HasRoom w.stage (spi_reply w.radio reply)
    → ((u : RxWorld) × (completion w.stage w reply fifo ≡ ok u)
        × Step w u
        × (rank u.stage < rank w.stage))
      × ((u : RxWorld) (st : Step w u) → Descends (is_completion st) w.stage u.stage)
unfolding Nearer
rx_comes_to_rest i t r {w} reply fifo reach b room =
    let v = Reach-Inv (begin-Inv i t r) reach in
    (completion-Nearer w.stage w reply fifo refl v b room, λ u st. Step-Descends st v b)

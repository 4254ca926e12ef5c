-- ===== src/Allocation.antt =====
-- The buffers and the work queue that the layers allocate in their `init` functions (radio.c, lpl.c,
-- sack.c, csma.c) and release on an error or in `free`, and the part of `init_module` (module.c) that
-- calls these. An allocation is known by the variable that points to it; `fails` says which
-- `kmalloc` or `alloc_workqueue` returns NULL. A release of what is not allocated is a fault.
pub mod Leaks
mod Tests
use linux_cc2520_driver.Prelude.{
  Bool, true, false, not, ◌||◌, List, [], ◌∷◌, Outcome, ok, fault, blocked, ◌>>=◌, if◌then◌else◌,
}

pub data Variable : Type 0 where
  radio_tx_buf radio_rx_buf radio_rx_out_buf radio_rx_in_buf radio_tx_buf_r radio_rx_buf_r :
      Variable
  lpl_cur_tx_buf sack_ack_buf sack_cur_tx_buf sack_cur_rx_buf csma_cur_tx_buf csma_wq : Variable

abbrev pub same : Variable → Variable → Bool
same radio_tx_buf radio_tx_buf = true
same radio_rx_buf radio_rx_buf = true
same radio_rx_out_buf radio_rx_out_buf = true
same radio_rx_in_buf radio_rx_in_buf = true
same radio_tx_buf_r radio_tx_buf_r = true
same radio_rx_buf_r radio_rx_buf_r = true
same lpl_cur_tx_buf lpl_cur_tx_buf = true
same sack_ack_buf sack_ack_buf = true
same sack_cur_tx_buf sack_cur_tx_buf = true
same sack_cur_rx_buf sack_cur_rx_buf = true
same csma_cur_tx_buf csma_cur_tx_buf = true
same csma_wq csma_wq = true
same _ _ = false

abbrev pub elem : Variable → List Variable → Bool
elem v [] = false
elem v (w ∷ ws) = same v w || elem v ws

abbrev pub without : Variable → List Variable → List Variable
without v [] = []
without v (w ∷ ws) = if same v w then ws else w ∷ without v ws

pub record Memory : Type 0 where
  -- allocations that have not been released
  pub live : List Variable
  -- variables that are not NULL
  pub set : List Variable

abbrev pub nothing : Memory
nothing = record { live = []; set = [] }

-- `v = kmalloc(…); if (!v) goto error;` before the rest; `v` is NULL before
abbrev pub allocate :
    {R : Type 0} → (Variable → Bool) → Variable → (Memory → R) → (Memory → R) → Memory → R
allocate fails v error rest m =
    if fails v then error m else rest (record { live = v ∷ m.live; set = v ∷ m.set })

-- `if (v) kfree(v);`
abbrev pub release : Variable → Memory → Outcome Memory
release v m =
    if elem v m.set
    then (if elem v m.live then ok (record m { live = without v m.live }) else fault)
    else ok m

-- `if (v) { kfree(v); v = NULL; }`
abbrev pub release_and_clear : Variable → Memory → Outcome Memory
release_and_clear v m = do
  released ← release v m
  ok (record released { set = without v released.set })

-- Whether an `init` returns 0, and what it leaves.
abbrev pub Initialised : Type 0
Initialised = Outcome (Bool × Memory)

abbrev pub failed : Outcome Memory → Initialised
failed o = do m ← o; ok (false, m)

abbrev pub done : Memory → Initialised
done m = ok (true, m)

-- The label `error` of `cc2520_radio_init` and `cc2520_radio_free` release the same, in this order.
unfoldable pub radio_free : Memory → Outcome Memory
radio_free m = do
  a ← release_and_clear radio_rx_buf_r m
  b ← release_and_clear radio_tx_buf_r a
  c ← release_and_clear radio_rx_buf b
  d ← release_and_clear radio_tx_buf c
  e ← release_and_clear radio_rx_in_buf d
  release_and_clear radio_rx_out_buf e

unfoldable pub radio_init : (Variable → Bool) → Memory → Initialised
unfolding radio_free
radio_init fails =
    let error : Memory → Initialised = λ m. failed (radio_free m) in
    allocate fails radio_tx_buf error (
      allocate fails radio_rx_buf error (
        allocate fails radio_rx_out_buf error (
          allocate fails radio_rx_in_buf error
            (allocate fails radio_tx_buf_r error (allocate fails radio_rx_buf_r error done)))))

unfoldable pub lpl_free : Memory → Outcome Memory
lpl_free m = release_and_clear lpl_cur_tx_buf m

unfoldable pub lpl_init : (Variable → Bool) → Memory → Initialised
unfolding lpl_free
lpl_init fails = allocate fails lpl_cur_tx_buf (λ m. failed (lpl_free m)) done

-- The label `error` of `cc2520_sack_init`
sack_error : Memory → Outcome Memory
sack_error m = do a ← release_and_clear sack_ack_buf m; release_and_clear sack_cur_tx_buf a

unfoldable pub sack_init : (Variable → Bool) → Memory → Initialised
unfolding sack_error
sack_init fails =
    let error : Memory → Initialised = λ m. failed (sack_error m) in
    allocate fails sack_ack_buf error
      (allocate fails sack_cur_tx_buf error (allocate fails sack_cur_rx_buf error done))

unfoldable pub sack_free : Memory → Outcome Memory
sack_free m = do a ← release sack_ack_buf m; release sack_cur_tx_buf a

-- The label `error` of `cc2520_csma_init` and `cc2520_csma_free` release the same.
unfoldable pub csma_free : Memory → Outcome Memory
csma_free m = do a ← release_and_clear csma_cur_tx_buf m; release csma_wq a

unfoldable pub csma_init : (Variable → Bool) → Memory → Initialised
unfolding csma_free
csma_init fails =
    let error : Memory → Initialised = λ m. failed (csma_free m) in
    allocate fails csma_cur_tx_buf error (allocate fails csma_wq error done)

-- The calls of these in `init_module`, with the labels that undo them.
unfoldable pub load_layers : (Variable → Bool) → Memory → Initialised
unfolding radio_init lpl_init sack_init csma_init radio_free lpl_free sack_free
load_layers fails m = do
  (radio, a) ← radio_init fails m
  if not radio then ok (false, a) else do
    (lpl, b) ← lpl_init fails a
    if not lpl then failed (radio_free b) else do
      (sack, c) ← sack_init fails b
      if not sack then failed (do x ← lpl_free c; radio_free x) else do
        (csma, d) ← csma_init fails c
        if not csma then failed (do x ← sack_free d; y ← lpl_free x; radio_free y) else ok (true, d)

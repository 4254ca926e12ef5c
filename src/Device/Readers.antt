-- ===== src/Device/Readers.antt =====
-- interface.c: readers on the wait queue. A reader sleeps from its call of `read`; a packet wakes all who
-- sleep (`wake_up`), a signal only one (`interruptible_sleep_on` does not tell the two apart); a reader
-- that has been woken copies the packet at some later time, here with nothing in between (Device/Torn is
-- about packets that arrive while it copies). Readers are known by the number of
-- packets that had been received when they called `read`.
use linux_cc2520_driver.Prelude.{
  ℕ, suc, ◌≤◌, ◌<◌, ◌≡◌, refl, true, List, [], ◌∷◌, ◌++◌, Buf, ok, length, take, drop, memcpy,
  take-append, arith,
}
use linux_cc2520_driver.Device.{Device, init, rx_done, Return, value, read_woken}

pub record ReadWorld : Type 0 where
  pub device : Device
  pub sleeping : List ℕ
  pub woken : List ℕ
  -- woken by a signal
  pub interrupted : List ℕ
  -- packets received, newest first
  pub received : List (Buf × ℕ)

abbrev pub quiet : Buf → Buf → ReadWorld
quiet tx_fresh rx_fresh = record {
  device = init tx_fresh rx_fresh;
  sleeping = [];
  woken = [];
  interrupted = [];
  received = [];
}

pub data Step (w u : ReadWorld) : Type 0 where
  sleeps : u ≡ record w { sleeping = length w.received ∷ w.sleeping } → Step w u
  receives :
      (buf : Buf) (len : ℕ) (d : Device)
      → rx_done w.device buf len ≡ ok d
      → u ≡ record w {
        device = d;
        sleeping = [];
        woken = w.sleeping ++ w.woken;
        received = (buf, len) ∷ w.received;
      }
      → Step w u
  signals :
      (before after : List ℕ) (reader : ℕ)
      → w.sleeping ≡ before ++ reader ∷ after
      → u ≡ record w { sleeping = before ++ after; interrupted = reader ∷ w.interrupted }
      → Step w u
  -- A reader has taken the packet and leaves.
  returns :
      (before after : List ℕ) (reader : ℕ)
      → w.woken ≡ before ++ reader ∷ after
      → u ≡ record w { woken = before ++ after }
      → Step w u
  gives_up :
      (before after : List ℕ) (reader : ℕ)
      → w.interrupted ≡ before ++ reader ∷ after
      → u ≡ record w { interrupted = before ++ after }
      → Step w u

pub data Reach (s : ReadWorld) : ReadWorld → Type 0 where
  here : Reach s s
  next : {w u : ReadWorld} → Reach s w → Step w u → Reach s u

abbrev pub AllBelow : ℕ → List ℕ → Type 0
AllBelow n [] = Unit
AllBelow n (x ∷ xs) = (x < n) × AllBelow n xs

AllBelow-weaken : (m n : ℕ) (xs : List ℕ) → m ≤ n → AllBelow m xs → AllBelow n xs
AllBelow-weaken m n [] h a = tt
AllBelow-weaken m n (x ∷ xs) h (l, a) = (omega arith, AllBelow-weaken m n xs h a)

AllBelow-append : (n : ℕ) (xs ys : List ℕ) → AllBelow n xs → AllBelow n ys → AllBelow n (xs ++ ys)
AllBelow-append n [] ys a b = b
AllBelow-append n (x ∷ xs) ys (l, a) b = (l, AllBelow-append n xs ys a b)

AllBelow-remove :
    (n : ℕ) (xs ys : List ℕ) (x : ℕ) → AllBelow n (xs ++ x ∷ ys) → AllBelow n (xs ++ ys)
AllBelow-remove n [] ys x (l, a) = a
AllBelow-remove n (z ∷ xs) ys x (l, a) = (l, AllBelow-remove n xs ys x a)

-- What a reader should get: the packet received last.
abbrev pub latest : List (Buf × ℕ) → Return × List ℕ
latest [] = (value 0, [])
latest ((buf, len) ∷ before) = (value len, take len buf)

record Inv (w : ReadWorld) : Type 0 where
  pub asleep : AllBelow (suc (length w.received)) w.sleeping
  pub fresh : AllBelow (length w.received) w.woken
  pub stored : read_woken w.device true ≡ latest w.received

quiet-Inv : (t r : Buf) → Inv (quiet t r)
unfolding init read_woken
quiet-Inv t r = record { asleep = tt; fresh = tt; stored = refl }

rx_done-stored :
    (d e : Device) (buf : Buf) (len : ℕ)
    → rx_done d buf len ≡ ok e
    → read_woken e true ≡ (value len, take len buf)
unfolding rx_done read_woken memcpy
rx_done-stored d e buf len eq = ground (arith, take-append len buf (drop len d.rx_buf_c))

Step-Inv : {w u : ReadWorld} → Step w u → Inv w → Inv u
Step-Inv {w} (sleeps eu) v =
    rw eu (record { asleep = (omega arith, v.asleep); fresh = v.fresh; stored = v.stored })
Step-Inv {w} (receives buf len d e eu) v = rw eu (record {
  asleep = tt;
  fresh =
      AllBelow-append (suc (length w.received)) w.sleeping w.woken v.asleep (
        AllBelow-weaken (length w.received) (suc (length w.received)) w.woken (omega arith)
          v.fresh);
  stored = rx_done-stored w.device d buf len e;
})
Step-Inv {w} (signals before after reader e eu) v = rw eu (record {
  asleep = AllBelow-remove (suc (length w.received)) before after reader (rw e at v.asleep);
  fresh = v.fresh;
  stored = v.stored;
})
Step-Inv {w} (returns before after reader e eu) v = rw eu (record {
  asleep = v.asleep;
  fresh = AllBelow-remove (length w.received) before after reader (rw e at v.fresh);
  stored = v.stored;
})
Step-Inv (gives_up before after reader e eu) v =
    rw eu (record { asleep = v.asleep; fresh = v.fresh; stored = v.stored })

Reach-Inv : {s w : ReadWorld} → Inv s → Reach s w → Inv w
Reach-Inv v here = v
Reach-Inv v (next r st) = Step-Inv st (Reach-Inv v r)

-- In every state reached from initialisation with any number of readers, packets and signals: whatever
-- a reader that has been woken finds is the packet received last, for as long as no other arrives
-- while it copies; and every reader that a
-- packet has woken called `read` before the last packet arrived.
pub read_latest :
    (tx_fresh rx_fresh : Buf) {w : ReadWorld}
    → Reach (quiet tx_fresh rx_fresh) w
    → (read_woken w.device true ≡ latest w.received) × AllBelow (length w.received) w.woken
read_latest t r reach = let v = Reach-Inv (quiet-Inv t r) reach in (v.stored, v.fresh)

-- ===== src/Prelude/Results.antt =====
-- What a handler of the driver comes to, and C's `memcpy` between buffers of known size.
use Prim.Native.Nat.{ℕ, ◌≤◌}
use mathlib.Core.Path.{◌≡◌, refl}
use mathlib.Core.Bool.{Bool, true, false, ◌&&◌, false≢true}
use mathlib.Core.List.{List, ◌++◌}
use native.Mathlib.Omega.{arith}
use linux_cc2520_driver.Prelude.Tests.{leb, if◌then◌else◌}
use linux_cc2520_driver.Prelude.Lists.{
  length, take, drop, length-append, take-append, length-take, length-drop,
}

-- `ok`: the handler returned. `fault`: it read or wrote outside an allocation, or divided by zero.
-- `blocked`: it spins, on a lock or for a state that only another handler can bring about.
pub data Outcome {ℓ} (A : Type ℓ) : Type ℓ where
  ok : A → Outcome A
  fault : Outcome A
  blocked : Outcome A

infixl 5 ◌>>=◌
abbrev pub ◌>>=◌ {ℓ κ} : {A : Type ℓ} {B : Type κ} → Outcome A → (A → Outcome B) → Outcome B
ok a >>= f = f a
fault >>= f = fault
blocked >>= f = blocked

-- The bytes of one allocation.
abbrev pub Buf : Type 0
Buf = List ℕ

-- `memcpy(dst, src, n)`: a fault unless `n` bytes lie in both allocations.
unfoldable pub memcpy : Buf → Buf → ℕ → Outcome Buf
memcpy dst src n =
    if leb n (length dst) && leb n (length src) then ok (take n src ++ drop n dst) else fault

pub memcpy-ok :
    (dst src : Buf) (n : ℕ)
    → n ≤ length dst
    → n ≤ length src
    → memcpy dst src n ≡ ok (take n src ++ drop n dst)
unfolding memcpy
memcpy-ok dst src n h k = ground arith

-- The first bytes of a copy are those of its source.
pub take-memcpy :
    (dst src : Buf) (n : ℕ) {copy : Buf} → memcpy dst src n ≡ ok copy → take n copy ≡ take n src
unfolding memcpy
take-memcpy dst src n e = ground (arith, take-append n src (drop n dst))

-- A copy keeps the size of the allocation.
pub length-copy :
    (dst src : Buf) (n : ℕ)
    → n ≤ length dst
    → n ≤ length src
    → length (take n src ++ drop n dst) ≡ length dst
length-copy dst src n h k =
    omega (arith, length-append (take n src) (drop n dst), length-take n src, length-drop n dst)

abbrev pub is_ok {ℓ} : {A : Type ℓ} → Outcome A → Bool
is_ok (ok a) = true
is_ok fault = false
is_ok blocked = false

pub is_ok-ok {ℓ} : {A : Type ℓ} (o : Outcome A) → is_ok o ≡ true → (a : A) × (o ≡ ok a)
is_ok-ok (ok a) e = (a, refl)
is_ok-ok fault e = absurd (false≢true e)
is_ok-ok blocked e = absurd (false≢true e)

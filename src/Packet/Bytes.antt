-- ===== src/Packet/Bytes.antt =====
-- Little-endian bytes of an integer, and that reading them back gives the integer.
use linux_cc2520_driver.Prelude.{
  ℕ, zero, suc, ◌/◌, ◌%◌, ◌^◌, ◌<◌, ◌≡◌, refl, ap, List, [], ◌∷◌, ◌++◌, length, take, arith,
}
use linux_cc2520_driver.Packet.{of_bytes}

-- The low `n` bytes of `x`, lowest first.
abbrev pub to_bytes : ℕ → ℕ → List ℕ
to_bytes zero x = []
to_bytes (suc n) x = (x % 256) ∷ to_bytes n (x / 256)

-- `x` has at most `n` bytes.
abbrev pub Fits : ℕ → ℕ → Type 0
Fits zero x = x ≡ 0
Fits (suc n) x = Fits n (x / 256)

pub length-to_bytes : (n x : ℕ) → length (to_bytes n x) ≡ n
length-to_bytes zero x = refl
length-to_bytes (suc n) x = ap suc (length-to_bytes n (x / 256))

pub of_bytes-to_bytes : (n x : ℕ) → Fits n x → of_bytes (to_bytes n x) ≡ x
unfolding of_bytes
of_bytes-to_bytes zero x h = omega arith
of_bytes-to_bytes (suc n) x h = omega (arith, of_bytes-to_bytes n (x / 256) h)

pub take-to_bytes : (n x : ℕ) (rest : List ℕ) → take n (to_bytes n x ++ rest) ≡ to_bytes n x
take-to_bytes zero x rest = refl
take-to_bytes (suc n) x rest = ap (◌∷◌ (x % 256)) (take-to_bytes n (x / 256) rest)

pub Fits-two_bytes : (x : ℕ) → x < 2 ^ 16 → Fits 2 x
Fits-two_bytes x h = omega arith

pub Fits-eight_bytes : (x : ℕ) → x < 2 ^ 64 → Fits 8 x
Fits-eight_bytes x h = omega arith

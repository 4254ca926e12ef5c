-- ===== src/Device/Log.antt =====
-- interface.c: `interface_print_to_log`, which formats a packet for the log in a buffer of its own.
-- Whether `char` is signed is up to the platform. Characters are their codes; the text is what stands
-- in `print_buf` before `print_buf_ptr`.
use Prim.Native.Nat.{min}
use mathlib.Core.List.{append-nil, append_assoc}
use linux_cc2520_driver.Prelude.{
  ℕ, zero, suc, ◌+◌, ◌-◌, ◌*◌, ◌/◌, ◌%◌, ◌^◌, ◌≤◌, ◌<◌, ◌≡◌, inl, inr, refl, Bool, Bool-cases,
  false, ◌&&◌, List, [], ◌∷◌, ◌++◌, Buf, Outcome, ok, fault, ◌>>=◌, length, length-append,
  length-take, take, get_or, ltb, leb, if◌then◌else◌, arith,
}
use linux_cc2520_driver.Radio.Tx.{copy_bytes}
use linux_cc2520_driver.Radio.Frames.{copy_bytes-take}

abbrev pub print_size : ℕ
print_size = 641

-- `buf[i]` as the 32-bit argument of the conversion
abbrev pub char_value : Bool → ℕ → ℕ
char_value is_signed b = if is_signed && leb 128 b then 2 ^ 32 - 256 + b else b

abbrev pub digit : ℕ → ℕ
digit d = if ltb d 10 then 48 + d else 55 + d

-- `%X`, its last `n` digits
abbrev pub hex : ℕ → ℕ → List ℕ
hex zero v = []
hex (suc n) v = hex n (v / 16) ++ (digit (v % 16) ∷ [])

-- The digits that `%02X` writes: those of the number, and at least two.
abbrev pub digits : ℕ → ℕ
digits v =
    if ltb v (16 ^ 2)
    then 2
    else if ltb v (16 ^ 3)
    then 3
    else if ltb v (16 ^ 4)
    then 4
    else if ltb v (16 ^ 5)
    then 5
    else if ltb v (16 ^ 6)
    then 6
    else if ltb v (16 ^ 7)
    then 7
    else 8

-- `" 0x%02X"`
abbrev pub formatted : ℕ → List ℕ
formatted v = 32 ∷ 48 ∷ 120 ∷ hex (digits v) v

-- `sprintf(print_buf_ptr, …)`, which writes the terminating zero too
abbrev pub print_one : List ℕ → List ℕ → Outcome (List ℕ)
print_one text more =
    if leb (length text + length more + 1) print_size then ok (text ++ more) else fault

-- The loop over the `n` indices from `i` on.
unfoldable pub print_loop : Bool → Buf → ℕ → ℕ → List ℕ → Outcome (List ℕ)
print_loop is_signed buf zero i text = ok text
print_loop is_signed buf (suc n) i text = do
  text' ← print_one text (formatted (char_value is_signed (get_or buf i 0)))
  print_loop is_signed buf n (i + 1) text'

-- `interface_print_to_log`, up to the call of `printk`
unfoldable pub print_to_log : Bool → Buf → ℕ → Outcome (List ℕ)
unfolding print_loop
print_to_log is_signed buf len = print_loop is_signed buf (min len 128) 0 []

-- The text of a list of bytes, and how long it is.
abbrev pub text_of : Bool → List ℕ → List ℕ
text_of is_signed [] = []
text_of is_signed (b ∷ bs) = formatted (char_value is_signed b) ++ text_of is_signed bs

-- The bytes from 128 on.
abbrev pub high : List ℕ → ℕ
high [] = 0
high (b ∷ bs) = (if leb 128 b then 1 else 0) + high bs

abbrev pub AllBytes : List ℕ → Type 0
AllBytes [] = Unit
AllBytes (b ∷ bs) = (b < 256) × AllBytes bs

length-hex : (n v : ℕ) → length (hex n v) ≡ n
length-hex zero v = refl
length-hex (suc n) v =
    omega (arith, length-append (hex n (v / 16)) (digit (v % 16) ∷ []), length-hex n (v / 16))

length-formatted :
    (is_signed : Bool) (b : ℕ)
    → b < 256
    → length (formatted (char_value is_signed b)) ≡ 5 + (if is_signed && leb 128 b then 6 else 0)
length-formatted s b h =
    let v = char_value s b in
    let n : digits v ≡ 2 + (if s && leb 128 b then 6 else 0) = ground arith in
    omega (arith, length-hex (digits v) v, n)

length-text_of :
    (is_signed : Bool) (bs : List ℕ)
    → AllBytes bs
    → length (text_of is_signed bs) ≡ 5 * length bs + (if is_signed then 6 * high bs else 0)
length-text_of s [] h = ground arith
length-text_of s (b ∷ bs) (h, k) = ground (
  arith,
  length-text_of s bs k,
  length-formatted s b h,
  length-append (formatted (char_value s b)) (text_of s bs),
)

-- The loop writes the text of its bytes, as long as that fits with the zero.
print_all : Bool → List ℕ → List ℕ → Outcome (List ℕ)
print_all s bs text =
    if leb (length text + length (text_of s bs)) 640 then ok (text ++ text_of s bs) else fault

print_loop-text :
    (s : Bool) (buf : Buf) (n i : ℕ) (text : List ℕ)
    → length text ≤ 640
    → print_loop s buf n i text ≡ print_all s (copy_bytes n i buf) text
unfolding print_loop copy_bytes print_all
print_loop-text s buf zero i text h = ground (arith, append-nil text)
print_loop-text s buf (suc n) i text h =
    let more = formatted (char_value s (get_or buf i 0)) in
    let rest = text_of s (copy_bytes n (i + 1) buf) in
    elim (Bool-cases (leb (length text + length more + 1) print_size)) [
      | inl le ↦ ground (
        arith,
        le,
        print_loop-text s buf n (i + 1) (text ++ more)
            (ground (arith, le, length-append text more)),
        length-append text more,
        length-append more rest,
        append_assoc text more rest,
      )
      | inr gt ↦ ground (arith, gt, length-append more rest)
    ]

-- The first 128 bytes of a packet at most, each as " 0xHH", stand in the buffer afterwards. Where `char`
-- is unsigned they always fit. Where it is signed a byte from 128 on is printed with eight digits, so
-- the buffer is overrun exactly if 5 characters for each byte, and 6 more for each of those, exceed 640.
pub print_to_log-text :
    (is_signed : Bool) (buf : Buf) (len : ℕ)
    → min len 128 ≤ length buf
    → AllBytes (take (min len 128) buf)
    → let bs = take (min len 128) buf in
      (print_to_log is_signed buf len ≡ (
        if leb (5 * length bs + (if is_signed then 6 * high bs else 0)) 640
        then ok (text_of is_signed bs)
        else fault))
      × (print_to_log false buf len ≡ ok (text_of false bs))
unfolding print_to_log print_all
print_to_log-text s buf len h b =
    let n = min len 128 in
    let e = copy_bytes-take n 0 buf (omega (arith, h)) in
    let all = λ (t : Bool). print_loop-text t buf n 0 [] (omega arith) in
    (
      ground (arith, e, all s, length-text_of s (take n buf) b),
      ground (arith, e, all false, length-text_of false (take n buf) b, length-take n buf),
    )

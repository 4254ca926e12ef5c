-- ===== src/Radio/Shared/Layout.antt =====
-- The transfers of a message in `tx_buf` do not overlap.
use linux_cc2520_driver.Prelude.{
  ℕ, zero, suc, ◌+◌, ◌≤◌, ◌≡◌, refl, sym, ap, ◌∙◌, List, [], ◌∷◌, ◌++◌, Buf, length, take, drop,
  length-append, length-take, length-drop, take-length-append, arith,
}
use linux_cc2520_driver.Radio.State.{Message}
use linux_cc2520_driver.Radio.Frames.{message_length}
use linux_cc2520_driver.Radio.Shared.{put, lay, tails, gather}

drop-take_append : (n : ℕ) (xs ys : Buf) → n ≤ length xs → drop n (take n xs ++ ys) ≡ ys
drop-take_append zero xs ys h = refl
drop-take_append (suc n) [] ys h = absurd (omega arith)
drop-take_append (suc n) (x ∷ xs) ys h = drop-take_append n xs ys (omega arith)

take-take_append :
    (k n : ℕ) (xs ys : Buf) → k ≤ n → n ≤ length xs → take k (take n xs ++ ys) ≡ take k xs
take-take_append zero n xs ys h l = refl
take-take_append (suc k) zero xs ys h l = absurd (omega arith)
take-take_append (suc k) (suc n) [] ys h l = absurd (omega arith)
take-take_append (suc k) (suc n) (x ∷ xs) ys h l =
    ap (◌∷◌ x) (take-take_append k n xs ys (omega arith) (omega arith))

take-drop : (n o : ℕ) (xs : Buf) → take n (drop o xs) ≡ drop o (take (o + n) xs)
take-drop n zero xs = let e : 0 + n ≡ n = omega arith in rw e
take-drop zero (suc o) [] = let e : suc o + 0 ≡ suc o = omega arith in rw e
take-drop (suc n) (suc o) [] = let e : suc o + suc n ≡ suc (o + suc n) = omega arith in rw e
take-drop n (suc o) (x ∷ xs) =
    let e : suc o + n ≡ suc (o + n) = omega arith in rw e (take-drop n o xs)

length-put :
    (o : ℕ) (t : List ℕ) (buf : Buf) → o + length t ≤ length buf → length (put o t buf) ≡ length buf
unfolding put
length-put o t buf h = omega (
  arith,
  length-append (take o buf) (t ++ drop (o + length t) buf),
  length-append t (drop (o + length t) buf),
  length-take o buf,
  length-drop (o + length t) buf,
)

pub length-lay :
    (o : ℕ) (m : Message) (buf : Buf)
    → o + message_length m ≤ length buf
    → length (lay o m buf) ≡ length buf
unfolding lay
length-lay o [] buf h = refl
length-lay o (t ∷ ts) buf h =
    let same = length-put o t buf (omega arith) in
    length-lay (o + length t) ts (put o t buf) (omega (arith, same)) ∙ same

slice-put :
    (o : ℕ) (t : List ℕ) (buf : Buf)
    → o + length t ≤ length buf
    → take (length t) (drop o (put o t buf)) ≡ t
unfolding put
slice-put o t buf h =
    rw (drop-take_append o buf (t ++ drop (o + length t) buf) (omega arith))
      (take-length-append t (drop (o + length t) buf))

-- What lies below a message's first byte stays.
take-lay :
    (k o : ℕ) (m : Message) (buf : Buf)
    → k ≤ o
    → o + message_length m ≤ length buf
    → take k (lay o m buf) ≡ take k buf
unfolding lay put
take-lay k o [] buf h l = refl
take-lay k o (t ∷ ts) buf h l =
    let same = length-put o t buf (omega arith) in
    take-lay k (o + length t) ts (put o t buf) (omega arith) (omega (arith, same))
    ∙ take-take_append k o buf (t ++ drop (o + length t) buf) h (omega arith)

pub gather-lay :
    (o : ℕ) (m : Message) (buf : Buf)
    → o + message_length m ≤ length buf
    → gather (tails o m) (lay o m buf) ≡ m
unfolding gather tails lay
gather-lay o [] buf h = refl
gather-lay o (t ∷ ts) buf h =
    let n = length t in
    let next = put o t buf in
    let same = length-put o t buf (omega arith) in
    let first : take n (drop o (lay (o + n) ts next)) ≡ t =
      take-drop n o (lay (o + n) ts next)
      ∙ ap (drop o) (take-lay (o + n) (o + n) ts next (omega arith) (omega (arith, same)))
      ∙ sym (take-drop n o next)
      ∙ slice-put o t buf (omega arith) in
    rw (first, gather-lay (o + n) ts next (omega (arith, same)))

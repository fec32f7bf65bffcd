-- ===== src/Output/Cuts.antt =====
-- What truncateMiddle keeps.
use jev_routing.Prelude.{
  ℕ, zero, suc, ◌+◌, ◌-◌, ◌/◌, ◌%◌, ◌≤◌, ◌<◌, ◌⊎◌, ◌≡◌, refl, sym, ap, ◌∙◌, min, true, false, [],
  ◌∷◌, ◌++◌, leb, ltb, length, take, drop, take-append-drop, length-drop, length-take, arith,
  Bool-cases, inl, inr,
}
use native.Mathlib.Nat.{zero-add}
use jev_routing.Text.{Str, lit, digits, decimal}
use jev_routing.Text.Utf8.{is_valid, valid_after, after_first, valid-append, valid-ascii}
use jev_routing.Output.{
  head_loop, utf8_head_len, tail_loop, utf8_tail_start, note, Middle, truncate_middle,
}

-- `n` is the length of a valid prefix of `s`, and the greatest up to `bound`.
unfoldable pub IsHead : Str → ℕ → ℕ → Type 0
IsHead s bound n =
    (n ≤ bound)
    × (is_valid (take n s) ≡ true)
    × ((k : ℕ) → n < k → k ≤ bound → is_valid (take k s) ≡ false)

head_loop-IsHead : (s : Str) (n : ℕ) → IsHead s n (head_loop s n)
unfolding head_loop IsHead valid_after
head_loop-IsHead s zero = (omega arith, refl, λ k h l. absurd (omega arith))
head_loop-IsHead s (suc n) = elim (Bool-cases (is_valid (take (suc n) s))) [
  | inl here ↦ rw here (omega arith, here, λ k h l. absurd (omega arith))
  | inr shorter ↦ rw shorter (widened s n (head_loop s n) shorter (head_loop-IsHead s n))
]
  where
    widened :
        (s : Str) (n m : ℕ) → is_valid (take (suc n) s) ≡ false → IsHead s n m → IsHead s (suc n) m
    widened s n m shorter (bound, valid, greatest) =
        (omega arith, valid, λ k h l. by_order k h l (Bool-cases (leb k n)))
      where
        by_order :
            (k : ℕ)
            → m < k
            → k ≤ suc n
            → (leb k n ≡ true) ⊎ (leb k n ≡ false)
            → is_valid (take k s) ≡ false
        by_order k h l (inl less) = greatest k h (ground arith)
        by_order k h l (inr last) = let e : k ≡ suc n = ground arith in rw e shorter

-- `k` bytes of `rest` are skipped, and what follows them is valid.
unfoldable pub Skips : Str → ℕ → ℕ → Type 0
Skips rest start found =
    (k : ℕ) × (found ≡ start + k) × (k ≤ length rest) × (is_valid (drop k rest) ≡ true)

tail_loop-Skips : (rest : Str) (start : ℕ) → Skips rest start (tail_loop rest start)
unfolding tail_loop Skips valid_after
tail_loop-Skips [] start = (0, omega arith, omega arith, refl)
tail_loop-Skips (b ∷ rest) start = elim (Bool-cases (is_valid (b ∷ rest))) [
  | inl here ↦ rw here (0, omega arith, omega arith, here)
  | inr later ↦
      let (k, e, l, v) = tail_loop-Skips rest (start + 1) in
      rw later (suc k, omega arith, omega arith, v)
]

drop-nil : (n : ℕ) → drop {A = ℕ} n [] ≡ []
drop-nil zero = refl
drop-nil (suc n) = refl

drop-drop : (n k : ℕ) (s : Str) → drop k (drop n s) ≡ drop (n + k) s
drop-drop zero k s = rw (zero-add k) refl
drop-drop (suc n) k [] = drop-nil k ∙ sym (drop-nil (suc n + k))
drop-drop (suc n) k (b ∷ s) =
    let e : suc n + k ≡ suc (n + k) = omega arith in rw e (drop-drop n k s)

digit-valid : (n : ℕ) → is_valid ((b'0' + n % 10) ∷ []) ≡ true
digit-valid n = valid-ascii _ (omega arith, tt)

digits-valid : (fuel n : ℕ) → is_valid (digits fuel n) ≡ true
unfolding digits valid_after
digits-valid zero n = refl
digits-valid (suc fuel) n = elim (Bool-cases (ltb n 10)) [
  | inl one ↦ rw one (digit-valid n)
  | inr more ↦
      rw more
        (valid-append [] (digits fuel (n / 10)) _ (digits-valid fuel (n / 10)) (digit-valid n))
]

pieces :
    (is_valid (lit "\n[jev-routing: omitted ") ≡ true)
    × (is_valid (lit " of ") ≡ true)
    × (is_valid (
          lit
            " bytes from the middle of this tool output; re-run a narrower command (e.g. sed -n 'A,Bp' or rg) to see the omitted part]\n")
        ≡ true)
unfolding lit valid_after after_first
pieces = (refl, refl, refl)

note-valid : (omitted total : ℕ) → is_valid (note omitted total) ≡ true
unfolding note decimal
note-valid omitted total =
    let (opening, of, rest) = pieces in
    valid-append [] _ _ opening (
      valid-append [] _ _ (digits-valid 19 omitted)
        (valid-append [] _ _ of (valid-append [] _ _ (digits-valid 19 total) rest)))

abbrev cut_at : Str → ℕ → ℕ → Middle
cut_at s h t = record {
  out = take h s ++ (note (t - h) (length s) ++ drop t s);
  omitted = t - h;
  did = true;
}

utf8_head_len-IsHead : (s : Str) (n : ℕ) → n ≤ length s → IsHead s n (utf8_head_len s n)
unfolding utf8_head_len
utf8_head_len-IsHead s n short =
    let e : min n (length s) ≡ n = omega arith in rw e (head_loop-IsHead s n)

utf8_tail_start-Skips : (s : Str) (n : ℕ) → n ≤ length s → Skips (drop n s) n (utf8_tail_start s n)
unfolding utf8_tail_start
utf8_tail_start-Skips s n short =
    let e : min n (length s) ≡ n = omega arith in rw e (tail_loop-Skips (drop n s) n)

truncate_middle-cut :
    (s : Str) (limit : ℕ)
    → limit < length s
    → (h : ℕ) × (t : ℕ) × (truncate_middle s limit ≡ cut_at s h t)
      × IsHead s (limit / 2) h
      × (h ≤ t)
      × (t ≤ length s)
      × (length s - t ≤ limit / 2)
      × (is_valid (drop t s) ≡ true)
unfolding truncate_middle IsHead Skips
truncate_middle-cut s limit long =
    let from = length s - limit / 2 in
    let h = utf8_head_len s (limit / 2) in
    let head = utf8_head_len-IsHead s (limit / 2) (omega arith) in
    let (k, found, bound, valid) = utf8_tail_start-Skips s from (omega arith) in
    let size = length-drop from s in
    let over : leb (length s) limit ≡ false = ground arith in
    let apart : ltb (utf8_tail_start s from) h ≡ false = ground (arith, head.0, found) in
    let start : is_valid (drop (utf8_tail_start s from) s) ≡ true =
      rw (found, ← drop-drop from k s) valid in
    (
      h,
      utf8_tail_start s from,
      rw (over, apart) refl,
      head,
      ground (arith, apart),
      omega (arith, found, bound, size),
      omega (arith, found, bound, size),
      start,
    )

-- A text over the limit is cut into a front, a middle and a back, and the middle is replaced by the
-- note, which says its length. Neither front nor back is over half the limit, both are valid UTF-8
-- and so is the result, whatever the text, and no longer front within the half is valid.
pub truncate_middle-parts :
    (s : Str) (limit : ℕ)
    → limit < length s
    → let r = truncate_middle s limit in
      (front : Str) × (middle : Str) × (back : Str) × (s ≡ front ++ (middle ++ back))
      × (r.out ≡ front ++ (note (length middle) (length s) ++ back))
      × (r.omitted ≡ length middle)
      × IsHead s (limit / 2) (length front)
      × (length back ≤ limit / 2)
      × (is_valid front ≡ true)
      × (is_valid back ≡ true)
      × (is_valid r.out ≡ true)
      × (r.did ≡ true)
unfolding IsHead
truncate_middle-parts s limit long =
    let (h, t, e, head, order, bound, short, valid) = truncate_middle-cut s limit long in
    let middle = take (t - h) (drop h s) in
    let size : length middle ≡ t - h =
      omega (arith, length-take (t - h) (drop h s), length-drop h s) in
    let back : drop (t - h) (drop h s) ≡ drop t s =
      drop-drop h (t - h) s ∙ ap (λ n. drop n s) (omega arith) in
    let front : length (take h s) ≡ h = omega (arith, length-take h s) in
    let out : (truncate_middle s limit).out
        ≡ take h s ++ (note (length middle) (length s) ++ drop t s) =
      ap (λ (r : Middle). r.out) e
      ∙ ap (λ n. take h s ++ (note n (length s) ++ drop t s)) (sym size) in
    (
      take h s,
      middle,
      drop t s,
      sym (take-append-drop h s)
          ∙ ap (◌++◌ (take h s))
              (sym (take-append-drop (t - h) (drop h s)) ∙ ap (◌++◌ middle) back),
      out,
      ap (λ (r : Middle). r.omitted) e ∙ sym size,
      rw front head,
      omega (arith, length-drop t s),
      head.1,
      valid,
      rw out (valid-append [] _ _ head.1 (valid-append [] _ _ (note-valid _ _) valid)),
      ap (λ (r : Middle). r.did) e,
    )

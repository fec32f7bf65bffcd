-- ===== src/Compact/Truncation.antt =====
-- Truncated bodies: never longer, and stable under another truncation.
use jev_routing.Prelude.{
  ℕ, zero, suc, ◌+◌, ◌-◌, ◌/◌, ◌%◌, ◌≤◌, ◌<◌, ◌≡◌, refl, Bool, [], ◌∷◌, ◌++◌, arith, leb, le→leb,
  lt→leb, if◌then◌else◌, length, length-append, take, length-take, Bool-cases, inl, inr,
}
use jev_routing.Text.{Str, lit, digits, decimal}
use jev_routing.Compact.Apply.{truncate_body}

length-digits : (fuel n : ℕ) → length (digits fuel n) ≤ fuel
unfolding digits
length-digits zero n = omega arith
length-digits (suc fuel) n =
    ground (
      arith,
      length-digits fuel (n / 10),
      length-append (digits fuel (n / 10)) ((48 + n % 10) ∷ []),
    )

length-decimal : (n : ℕ) → length (decimal n) ≤ 19
unfolding decimal
length-decimal n = length-digits 19 n

newline_length : length (lit "\n") ≡ 1
unfolding lit
newline_length = refl

module _ (text : Str) (is_error : Bool) (head : ℕ) where
  -- the note that stands for the rest
  note : Str
  note =
      lit "[jev-compaction truncated "
      ++ (decimal (length text - head)
          ++ (lit " chars of this tool result"
              ++ ((if is_error then lit " (error)" else []) ++ lit "; re-run the tool if needed]")))

  length-note : length note ≤ 107
  unfolding note lit
  length-note = ground (
    arith,
    length-decimal (length text - head),
    length-append (lit "[jev-compaction truncated ") (
        decimal (length text - head)
        ++ (lit " chars of this tool result"
            ++ ((if is_error then lit " (error)" else []) ++ lit "; re-run the tool if needed]"))),
    length-append (decimal (length text - head)) (
        lit " chars of this tool result"
        ++ ((if is_error then lit " (error)" else []) ++ lit "; re-run the tool if needed]")),
  )

  truncate_body_short : length text ≤ head + 120 → truncate_body text is_error head ≡ text
  unfolding truncate_body
  truncate_body_short h = rw (le→leb (length text) (head + 120) h)

  length-truncate_body_long :
      head + 120 < length text → length (truncate_body text is_error head) ≤ head + 108
  unfolding truncate_body note
  length-truncate_body_long h = rw (lt→leb (length text) (head + 120) h) (
      ground (
        arith,
        length-note,
        length-append (take head text ++ lit "\n") note,
        length-append (take head text) (lit "\n"),
        length-take head text,
        newline_length,
      ))

  -- A truncated tool result is never longer than the result.
  length-truncate_body : length (truncate_body text is_error head) ≤ length text
  length-truncate_body = elim (Bool-cases (leb (length text) (head + 120))) [
    | inl small ↦ rw (truncate_body_short (ground arith)) (omega arith)
    | inr large ↦
        let h : head + 120 < length text = ground arith in
        omega (arith, length-truncate_body_long h)
  ]

  truncated_fits : length (truncate_body text is_error head) ≤ head + 120
  truncated_fits = elim (Bool-cases (leb (length text) (head + 120))) [
    | inl small ↦ let h : length text ≤ head + 120 = ground arith in rw (truncate_body_short h) h
    | inr large ↦
        let h : head + 120 < length text = ground arith in
        omega (arith, length-truncate_body_long h)
  ]

-- Truncating what was truncated at the same length changes nothing: a history that is compacted
-- again keeps the bodies that it has.
truncate_body_stable :
    (text : Str) (is_error again : Bool) (head : ℕ)
    → truncate_body (truncate_body text is_error head) again head ≡ truncate_body text is_error head
truncate_body_stable text is_error again head =
    truncate_body_short (truncate_body text is_error head) again head
      (truncated_fits text is_error head)

-- TruncateBody never makes a text longer, and truncating a truncated text again with the same head
-- length leaves it as it is.
pub truncate_body_settles :
    (text : Str) (is_error again : Bool) (head : ℕ)
    → let once = truncate_body text is_error head in
      (length once ≤ length text) × (truncate_body once again head ≡ once)
truncate_body_settles text is_error again head =
    (length-truncate_body text is_error head, truncate_body_stable text is_error again head)

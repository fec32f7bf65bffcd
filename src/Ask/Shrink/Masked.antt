-- ===== src/Ask/Shrink/Masked.antt =====
-- What setting the references changes in a value.
use jev_routing.Prelude.{
  ℕ, suc, ◌≤◌, ◌≡◌, refl, ap, ◌∙◌, inl, inr, List, [], ◌∷◌, ◌++◌, if◌then◌else◌, length, take, drop,
  take-add, length-append, length-drop, Bool-cases, arith,
}
use jev_routing.Text.{Str}
use jev_routing.Json.{
  Json, null, boolean, number, string, array, object, Elements, nil, cons, Members, end, member,
}
use jev_routing.Ask.Shrink.{
  shrinkable_field, shrink_strings, element_strings, member_strings, first_or, fill, fill_elements,
  fill_members,
}

-- The value with the empty string for each string that may be cut.
unfoldable mutual
  pub mask : Json → Json
  mask (array xs) = array (mask_elements xs)
  mask (object ms) = object (mask_members ms)
  mask v = v

  pub mask_elements : Elements → Elements
  mask_elements nil = nil
  mask_elements (cons x xs) = cons (mask x) (mask_elements xs)

  pub mask_members : Members → Members
  mask_members end = end
  mask_members (member k (string s) ms) =
      let rest = mask_members ms in member k (string (if shrinkable_field k then [] else s)) rest
  mask_members (member k v ms) = member k (mask v) (mask_members ms)

mutual
  unfolding mask fill shrink_strings

  pub mask-fill : (j : Json) (ss : List Str) → mask (fill j ss) ≡ mask j
  mask-fill null ss = refl
  mask-fill (boolean b) ss = refl
  mask-fill (number m e) ss = refl
  mask-fill (string s) ss = refl
  mask-fill (array xs) ss = ap array (mask-fill_elements xs ss)
  mask-fill (object ms) ss = ap object (mask-fill_members ms ss)

  mask-fill_elements :
      (xs : Elements) (ss : List Str) → mask_elements (fill_elements xs ss) ≡ mask_elements xs
  mask-fill_elements nil ss = refl
  mask-fill_elements (cons x xs) ss =
      rw (mask-fill x ss, mask-fill_elements xs (drop (length (shrink_strings x)) ss))

  mask-fill_members :
      (ms : Members) (ss : List Str) → mask_members (fill_members ms ss) ≡ mask_members ms
  mask-fill_members end ss = refl
  mask-fill_members (member k (string s) ms) ss = elim (Bool-cases (shrinkable_field k)) [
    | inl cut ↦ rw cut (rw (cut, mask-fill_members ms (drop 1 ss)))
    | inr kept ↦ rw kept (rw (kept, mask-fill_members ms ss))
  ]
  mask-fill_members (member k null ms) ss = ap (λ r. member k null r) (mask-fill_members ms ss)
  mask-fill_members (member k (boolean b) ms) ss =
      ap (λ r. member k (boolean b) r) (mask-fill_members ms ss)
  mask-fill_members (member k (number m e) ms) ss =
      ap (λ r. member k (number m e) r) (mask-fill_members ms ss)
  mask-fill_members (member k (array xs) ms) ss =
      rw (mask-fill_elements xs ss, mask-fill_members ms (drop (length (element_strings xs)) ss))
  mask-fill_members (member k (object ns) ms) ss =
      rw (mask-fill_members ns ss, mask-fill_members ms (drop (length (member_strings ns)) ss))

first-take :
    (n : ℕ) (s : Str) (ss : List Str)
    → suc n ≤ length ss
    → first_or s ss ∷ take n (drop 1 ss) ≡ take (suc n) ss
first-take n s [] h = absurd (omega arith)
first-take n s (t ∷ ss) h = refl

-- Two parts that are filled from one list after the other.
both :
    (a b ss : List Str) {c d : List Str}
    → length (a ++ b) ≤ length ss
    → (length a ≤ length ss → c ≡ take (length a) ss)
    → (length b ≤ length (drop (length a) ss) → d ≡ take (length b) (drop (length a) ss))
    → c ++ d ≡ take (length (a ++ b)) ss
both a b ss h f g =
    let n = length-append a b in
    rw (
      n,
      take-add (length a) (length b) ss,
      f (omega (arith, n)),
      g (omega (arith, n, length-drop (length a) ss)),
    )

-- What is set is read again.
mutual
  unfolding fill shrink_strings

  pub strings-fill :
      (j : Json) (ss : List Str)
      → length (shrink_strings j) ≤ length ss
      → shrink_strings (fill j ss) ≡ take (length (shrink_strings j)) ss
  strings-fill null ss h = refl
  strings-fill (boolean b) ss h = refl
  strings-fill (number m e) ss h = refl
  strings-fill (string s) ss h = refl
  strings-fill (array xs) ss h = element_strings-fill xs ss h
  strings-fill (object ms) ss h = member_strings-fill ms ss h

  element_strings-fill :
      (xs : Elements) (ss : List Str)
      → length (element_strings xs) ≤ length ss
      → element_strings (fill_elements xs ss) ≡ take (length (element_strings xs)) ss
  element_strings-fill nil ss h = refl
  element_strings-fill (cons x xs) ss h =
      both (shrink_strings x) (element_strings xs) ss h (strings-fill x ss)
        (element_strings-fill xs (drop (length (shrink_strings x)) ss))

  member_strings-fill :
      (ms : Members) (ss : List Str)
      → length (member_strings ms) ≤ length ss
      → member_strings (fill_members ms ss) ≡ take (length (member_strings ms)) ss
  member_strings-fill end ss h = refl
  member_strings-fill (member k (string s) ms) ss h = elim (Bool-cases (shrinkable_field k)) [
    | inl cut ↦
        let n = length (member_strings ms) in
        let enough : suc n ≤ length ss = rw cut at h in
        rw cut (
          rw cut (
            ap (λ r. first_or s ss ∷ r)
              (member_strings-fill ms (drop 1 ss) (omega (arith, length-drop 1 ss, enough)))
            ∙ first-take n s ss enough))
    | inr kept ↦ rw kept (rw kept (member_strings-fill ms ss (rw kept at h)))
  ]
  member_strings-fill (member k null ms) ss h = member_strings-fill ms ss h
  member_strings-fill (member k (boolean b) ms) ss h = member_strings-fill ms ss h
  member_strings-fill (member k (number m e) ms) ss h = member_strings-fill ms ss h
  member_strings-fill (member k (array xs) ms) ss h =
      both (element_strings xs) (member_strings ms) ss h (element_strings-fill xs ss)
        (member_strings-fill ms (drop (length (element_strings xs)) ss))
  member_strings-fill (member k (object ns) ms) ss h =
      both (member_strings ns) (member_strings ms) ss h (member_strings-fill ns ss)
        (member_strings-fill ms (drop (length (member_strings ns)) ss))

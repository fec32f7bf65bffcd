-- ===== src/Clears/Once.antt =====
-- The edit of a request and its header, addClearToolUsesEdit and addContextManagementBeta.
use jev_routing.Prelude.{
  ◌≡◌, refl, sym, ap, ◌∙◌, ◌⊎◌, inl, inr, Bool, true, false, ◌||◌, none, some, List, [], ◌∷◌, ◌++◌,
  any, ◌==◌, if◌then◌else◌, arith, Bool-cases,
}
use jev_routing.Text.{Str, lit, str_eq, is_blank, has_prefix, trim_space, trim_left, trim_right}
use jev_routing.Json.{Json, Members, object, array, get, set, text_at, elements, of_list}
use jev_routing.Json.Laws.{get-set, get-set_other}
use jev_routing.Clears.{
  ClearOptions, beta, clear_edit, context_key, edits_key, is_clear_edit, context_of, edits_of,
  with_edit, add_edit_in, add_clear_edit, split_commas, is_beta, first_value, add_beta,
}

elements-of_list : (xs : List Json) → elements (of_list xs) ≡ xs
unfolding elements of_list
elements-of_list [] = refl
elements-of_list (x ∷ xs) = ap (◌∷◌ x) (elements-of_list xs)

any-append_true :
    {A : Type 0} (p : A → Bool) (xs ys : List A) → any p ys ≡ true → any p (xs ++ ys) ≡ true
any-append_true p [] ys h = h
any-append_true p (x ∷ xs) ys h = let rest = any-append_true p xs ys h in ground (arith, rest)

own-edit : (opt : ClearOptions) → is_clear_edit (clear_edit opt) ≡ true
unfolding clear_edit text_at get str_eq lit has_prefix
own-edit opt = refl

-- The context_management after the edit was added.
abbrev edited : ClearOptions → Members → Members
edited opt cm = set edits_key (array (of_list (edits_of cm ++ (clear_edit opt ∷ [])))) cm

edits_of-edited :
    (opt : ClearOptions) (cm : Members)
    → edits_of (edited opt cm) ≡ edits_of cm ++ (clear_edit opt ∷ [])
edits_of-edited opt cm =
    let es = edits_of cm ++ (clear_edit opt ∷ []) in
    rw (get-set edits_key (array (of_list es)) cm) (elements-of_list es)

context-with_edit :
    (opt : ClearOptions) (cm root : Members)
    → context_of (get context_key (with_edit opt cm root)) ≡ some (edited opt cm)
context-with_edit opt cm root = ap context_of (get-set context_key (object (edited opt cm)) root)

again-with_edit :
    (opt again : ClearOptions) (cm root : Members)
    → add_clear_edit again (with_edit opt cm root) ≡ none
unfolding add_clear_edit add_edit_in
again-with_edit opt again cm root =
    let present : any is_clear_edit (edits_of (edited opt cm)) ≡ true =
      ap (any is_clear_edit) (edits_of-edited opt cm)
      ∙ any-append_true is_clear_edit (edits_of cm) (clear_edit opt ∷ [])
          (ap (λ b. b || false) (own-edit opt)) in
    ap (add_edit_in again (with_edit opt cm root)) (context-with_edit opt cm root) ∙ rw present

added-with_edit :
    (opt : ClearOptions) (root cm r : Members)
    → context_of (get context_key root) ≡ some cm
    → add_clear_edit opt root ≡ some r
    → r ≡ with_edit opt cm root
unfolding add_clear_edit add_edit_in
added-with_edit opt root cm r context added =
    by_edits (Bool-cases (any is_clear_edit (edits_of cm)))
      (sym (ap (add_edit_in opt root) context) ∙ added)
  where
    by_edits :
        (any is_clear_edit (edits_of cm) ≡ true) ⊎ (any is_clear_edit (edits_of cm) ≡ false)
        → (if any is_clear_edit (edits_of cm) then none else some (with_edit opt cm root)) ≡ some r
        → r ≡ with_edit opt cm root
    by_edits (inl has) e = absurd (ground arith)
    by_edits (inr lacks) e = ground arith

-- Adding the edit to a request appends it to the edits that the request has and changes no other
-- member, neither of the request nor of its context_management; to the result no edit is added,
-- whatever the options are then.
pub add_clear_edit-added :
    (opt again : ClearOptions) (root cm r : Members)
    → context_of (get context_key root) ≡ some cm
    → add_clear_edit opt root ≡ some r
    → (add_clear_edit again r ≡ none)
      × ((key : Str) → str_eq context_key key ≡ false → get key r ≡ get key root)
      × ((cm' : Members) × (context_of (get context_key r) ≡ some cm')
          × (edits_of cm' ≡ edits_of cm ++ (clear_edit opt ∷ []))
          × ((key : Str) → str_eq edits_key key ≡ false → get key cm' ≡ get key cm))
add_clear_edit-added opt again root cm r context added =
    let e = added-with_edit opt root cm r context added in
    rw e (
      again-with_edit opt again cm root,
      (λ key other. get-set_other context_key key _ root other),
      (
        edited opt cm,
        context-with_edit opt cm root,
        edits_of-edited opt cm,
        λ key other. get-set_other edits_key key _ cm other,
      ),
    )

-- A comma ends what stands before it.
split_commas-append :
    (a b : Str)
    → (p : Str) × (ps : List Str) × (split_commas (a ++ (b',' ∷ b)) ≡ p ∷ (ps ++ split_commas b))
unfolding split_commas
split_commas-append [] b = ([], [], refl)
split_commas-append (x ∷ a) b =
    let (p, ps, e) = split_commas-append a b in rw e (by_comma (x == b',') p ps)
  where
    by_comma :
        (c : Bool) (p : Str) (ps : List Str)
        → (p' : Str) × (ps' : List Str) × ((if c
              then [] ∷ (p ∷ (ps ++ split_commas b))
              else (x ∷ p) ∷ (ps ++ split_commas b))
            ≡ p' ∷ (ps' ++ split_commas b))
    by_comma true p ps = ([], p ∷ ps, refl)
    by_comma false p ps = (x ∷ p, ps, refl)

abbrev has_flag : List Str → Bool
has_flag values = any is_beta (split_commas (first_value values))

beta-flag : is_beta beta ≡ true
unfolding trim_space trim_left trim_right str_eq lit
beta-flag = refl

split-beta : split_commas beta ≡ beta ∷ []
unfolding split_commas lit
split-beta = refl

last-flag : (v : Str) → any is_beta (split_commas (v ++ (lit "," ++ beta))) ≡ true
unfolding lit
last-flag v =
    let (p, ps, e) = split_commas-append v beta in
    rw (e, split-beta)
      (any-append_true is_beta (p ∷ ps) (beta ∷ []) (ap (λ b. b || false) beta-flag))

blank-flag : (v : Str) → is_blank v ≡ true → any is_beta (split_commas v) ≡ false
unfolding split_commas trim_space trim_left trim_right str_eq lit
blank-flag [] h = refl
blank-flag (b ∷ v) h = absurd (ground arith)

flag-add_beta : (values : List Str) → has_flag (add_beta values) ≡ true
unfolding add_beta
flag-add_beta values =
    by_value (Bool-cases (is_blank (first_value values))) (Bool-cases (has_flag values))
  where
    by_value :
        (is_blank (first_value values) ≡ true) ⊎ (is_blank (first_value values) ≡ false)
        → (has_flag values ≡ true) ⊎ (has_flag values ≡ false)
        → has_flag (add_beta values) ≡ true
    by_value (inl blank) f = rw (blank, split-beta) (ap (λ b. b || false) beta-flag)
    by_value (inr given) (inl has) = rw (given, has) has
    by_value (inr given) (inr lacks) = rw (given, lacks) (last-flag (first_value values))

kept-add_beta : (values : List Str) → has_flag values ≡ true → add_beta values ≡ values
unfolding add_beta
kept-add_beta values h = elim (Bool-cases (is_blank (first_value values))) [
  | inl blank ↦ absurd (ground (arith, h, blank-flag (first_value values) blank))
  | inr given ↦ rw (given, h)
]

-- Once the flag is added to the header, its first value has it, and it is not added again.
add_beta-add_beta :
    (values : List Str)
    → (add_beta (add_beta values) ≡ add_beta values)
      × (any is_beta (split_commas (first_value (add_beta values))) ≡ true)
add_beta-add_beta values =
    let has = flag-add_beta values in (kept-add_beta (add_beta values) has, has)

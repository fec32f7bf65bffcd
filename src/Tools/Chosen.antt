-- ===== src/Tools/Chosen.antt =====
-- Which tools are left of a catalog.
use jev_routing.Prelude.{
  ◌≡◌, refl, ap, ◌∙◌, ◌⊎◌, inl, inr, Bool, true, false, ◌&&◌, ◌||◌, Option, none, some, List, [],
  ◌∷◌, ◌++◌, if◌then◌else◌, All, Bool-cases, arith,
}
use jev_routing.Text.{Str, str_eq}
use jev_routing.Text.Laws.{str_eq_iff}
use jev_routing.Json.{Json, null, boolean, number, string, array, object, Members}
use jev_routing.Plan.Goals.{in_set}
use jev_routing.Tools.{object_of, tool_name_of, is_sticky}
use jev_routing.Tools.Narrow.{
  Partition, place_tool, partition_tools, locate_pair_name, name_of, kept_name, kept_names, stays,
  inner_tools,
}

-- A tool that has to stay: a sticky one, one that is wanted, or one that the history refers to.
unfoldable pub required : List Str → List Str → Option Members → Bool
required want referenced none = false
required want referenced (some m) =
    is_sticky m || (in_set want (tool_name_of m) || in_set referenced (tool_name_of m))

-- A tool that may stay: one that has to, and one of the pair where the user asks to locate.
unfoldable pub permitted : Bool → List Str → List Str → Option Members → Bool
permitted locate want referenced none = false
permitted locate want referenced (some m) =
    required want referenced (some m) || (locate && locate_pair_name (tool_name_of m))

unfoldable pub pick_tools : (Option Members → Bool) → List Json → List Json
pick_tools p [] = []
pick_tools p (t ∷ tools) =
    let rest = pick_tools p tools in if p (object_of t) then t ∷ rest else rest

-- The tools are some of the others, in their order.
pub data AreAmong : List Json → List Json → Type 0 where
  none_left : AreAmong [] []
  left : {t : Json} {xs ys : List Json} → AreAmong xs ys → AreAmong (t ∷ xs) (t ∷ ys)
  gone : {t : Json} {xs ys : List Json} → AreAmong xs ys → AreAmong xs (t ∷ ys)

object-cases : (t : Json) → (object_of t ≡ none) ⊎ ((m : Members) × (t ≡ object m))
object-cases null = inl refl
object-cases (boolean b) = inl refl
object-cases (number m e) = inl refl
object-cases (string s) = inl refl
object-cases (array xs) = inl refl
object-cases (object m) = inr (m, refl)

pub in_set-append : (a b : List Str) (n : Str) → in_set (a ++ b) n ≡ in_set a n || in_set b n
unfolding in_set
in_set-append [] b n = refl
in_set-append (x ∷ a) b n = ground (arith, in_set-append a b n)

in_set-eq : (want : List Str) (a b : Str) → str_eq a b ≡ true → in_set want a ≡ in_set want b
in_set-eq want a b h = ap (in_set want) ((str_eq_iff a b).0 h)

kept_name-append : (m : Option Members) (a b : List Str) → kept_name m (a ++ b) ≡ kept_name m a ++ b
unfolding kept_name
kept_name-append none a b = refl
kept_name-append (some m) a b = elim (Bool-cases (is_sticky m)) [
  | inl sticky ↦ rw sticky refl
  | inr free ↦ rw free refl
]

pub kept_names-append : (a b : List Json) → kept_names (a ++ b) ≡ kept_names a ++ kept_names b
unfolding kept_names
kept_names-append [] b = refl
kept_names-append (t ∷ a) b =
    ap (kept_name (object_of t)) (kept_names-append a b)
    ∙ kept_name-append (object_of t) (kept_names a) (kept_names b)

pub inner_tools-AreAmong : (keep : List Str) (xs : List Json) → AreAmong (inner_tools keep xs) xs
unfolding inner_tools
inner_tools-AreAmong keep [] = AreAmong.none_left
inner_tools-AreAmong keep (x ∷ xs) = elim (Bool-cases (stays keep (object_of x))) [
  | inl here ↦ rw here (AreAmong.left (inner_tools-AreAmong keep xs))
  | inr away ↦ rw away (AreAmong.gone (inner_tools-AreAmong keep xs))
]

-- If what has to stay stays, leaving out the rest changes nothing of it.
pub pick_tools-inner_tools :
    (p : Option Members → Bool) (keep : List Str) (xs : List Json)
    → All (λ t. p (object_of t) ≡ true → stays keep (object_of t) ≡ true) xs
    → pick_tools p (inner_tools keep xs) ≡ pick_tools p xs
unfolding pick_tools inner_tools
pick_tools-inner_tools p keep [] a = refl
pick_tools-inner_tools p keep (x ∷ xs) (h, a) = elim (Bool-cases (p (object_of x))) [
  | inl needed ↦
      rw (needed, h needed) (rw needed (ap (λ r. x ∷ r) (pick_tools-inner_tools p keep xs a)))
  | inr free ↦ elim (Bool-cases (stays keep (object_of x))) [
    | inl here ↦ rw (free, here) (rw free (pick_tools-inner_tools p keep xs a))
    | inr away ↦ rw (free, away) (pick_tools-inner_tools p keep xs a)
  ]
]

-- Only what may stay is left.
pub inner_tools-All :
    (p : Option Members → Bool) (keep : List Str) (xs : List Json)
    → ((m : Option Members) → stays keep m ≡ true → p m ≡ true)
    → All (λ t. p (object_of t) ≡ true) (inner_tools keep xs)
unfolding inner_tools
inner_tools-All p keep [] f = tt
inner_tools-All p keep (x ∷ xs) f = elim (Bool-cases (stays keep (object_of x))) [
  | inl here ↦ rw here (f (object_of x) here, inner_tools-All p keep xs f)
  | inr away ↦ rw away (inner_tools-All p keep xs f)
]

-- The names of the tools that a loop puts into a list are in the set that it looks them up in.
abbrev pub Within : (Str → Bool) → List Str → Type 0
Within p names = (n : Str) → in_set names n ≡ true → p n ≡ true

pub no_flag : false ≡ true → ⊥
no_flag h = cc

module _ (p : Str → Bool) where
  pub add-Within :
      (m : Option Members) (names : List Str)
      → (p (name_of m) ≡ true)
      → Within p names
      → Within p (kept_name m names)
  unfolding kept_name in_set
  add-Within none names h w n e = w n e
  add-Within (some m) names h w n e = elim (Bool-cases (is_sticky m)) [
    | inl sticky ↦ w n (rw sticky at e)
    | inr free ↦ by_name (Bool-cases (str_eq (tool_name_of m) n)) (rw free at e)
  ]
    where
      by_name :
          (str_eq (tool_name_of m) n ≡ true) ⊎ (str_eq (tool_name_of m) n ≡ false)
          → (str_eq (tool_name_of m) n || in_set names n) ≡ true
          → p n ≡ true
      by_name (inl same) f = rw ((str_eq_iff (tool_name_of m) n).0 same) at h
      by_name (inr other) f = w n (rw other at f)

module _ (want referenced : List Str) where
  abbrev pub Placed : Partition → Type 0
  Placed p =
      Within (in_set want) (kept_names p.kept) × Within (in_set referenced) (kept_names p.sticky)

  sticky_name :
      (m : Members) (names : List Str) → is_sticky m ≡ true → kept_name (some m) names ≡ names
  unfolding kept_name
  sticky_name m names h = rw h refl

  place-Placed :
      (t : Json) (m : Option Members) (p : Partition)
      → object_of t ≡ m
      → Placed p
      → Placed (place_tool want referenced t m p)
  unfolding place_tool kept_names
  place-Placed t none p o s = s
  place-Placed t (some m) p o (k, s) = elim (Bool-cases (is_sticky m)) [
    | inl sticky ↦ rw sticky (k, (rw (o, sticky_name m (kept_names p.sticky) sticky) s))
    | inr free ↦ elim (Bool-cases (in_set want (tool_name_of m))) [
      | inl wanted ↦
          rw (free, wanted)
            (rw o (add-Within (in_set want) (some m) (kept_names p.kept) wanted k), s)
      | inr unwanted ↦ elim (Bool-cases (in_set referenced (tool_name_of m))) [
        | inl named ↦
            rw (free, unwanted, named)
              (k, rw o (add-Within (in_set referenced) (some m) (kept_names p.sticky) named s))
        | inr unnamed ↦ rw (free, unwanted, unnamed) (k, s)
      ]
    ]
  ]

  pub partition-Placed : (tools : List Json) → Placed (partition_tools want referenced tools)
  unfolding partition_tools kept_names in_set
  partition-Placed [] = (λ n e. absurd (no_flag e), λ n e. absurd (no_flag e))
  partition-Placed (t ∷ tools) =
      place-Placed t (object_of t) (partition_tools want referenced tools) refl
        (partition-Placed tools)

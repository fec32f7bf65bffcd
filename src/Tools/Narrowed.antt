-- ===== src/Tools/Narrowed.antt =====
-- What the narrowing of a catalog leaves.
use jev_routing.Prelude.{
  ◌≡◌, refl, inl, inr, true, false, Option, none, some, List, [], ◌∷◌, All, Bool-cases, arith,
}
use jev_routing.Text.{Str}
use jev_routing.Text.Laws.{str_eq_refl}
use jev_routing.Json.{Json, Members}
use jev_routing.Plan.Goals.{in_set}
use jev_routing.Tools.{object_of, tool_name_of, is_sticky}
use jev_routing.Tools.Narrow.{Partition, place_tool, partition_tools, kept_name, kept_names, stays}
use jev_routing.Tools.Chosen.{required, Within, no_flag}

grown :
    (m : Option Members) (names : List Str) (n : Str)
    → in_set names n ≡ true
    → in_set (kept_name m names) n ≡ true
unfolding kept_name in_set
grown none names n h = h
grown (some m) names n h = elim (Bool-cases (is_sticky m)) [
  | inl sticky ↦ rw sticky h
  | inr free ↦ rw free (ground (arith, h))
]

named :
    (m : Members) (names : List Str)
    → is_sticky m ≡ false
    → in_set (kept_name (some m) names) (tool_name_of m) ≡ true
unfolding kept_name in_set
named m names h = rw (h, str_eq_refl (tool_name_of m)) refl

module _ (want referenced keep : List Str) where
  -- The names of both lists are kept.
  abbrev InKeep : Partition → Type 0
  InKeep p = Within (in_set keep) (kept_names p.kept) × Within (in_set keep) (kept_names p.sticky)

  place-InKeep :
      (t : Json) (m : Option Members) (p : Partition)
      → InKeep (place_tool want referenced t m p)
      → InKeep p
  unfolding place_tool kept_names
  place-InKeep t none p i = i
  place-InKeep t (some m) p i = elim (Bool-cases (is_sticky m)) [
    | inl sticky ↦
        let (k, s) : InKeep (record p { sticky = t ∷ p.sticky }) = rw sticky at i in
        (k, λ n e. s n (grown (object_of t) (kept_names p.sticky) n e))
    | inr free ↦ elim (Bool-cases (in_set want (tool_name_of m))) [
      | inl wanted ↦
          let (k, s) : InKeep (record p { kept = t ∷ p.kept }) = rw (free, wanted) at i in
          (λ n e. k n (grown (object_of t) (kept_names p.kept) n e), s)
      | inr unwanted ↦ elim (Bool-cases (in_set referenced (tool_name_of m))) [
        | inl mentioned ↦
            let (k, s) : InKeep (record p { sticky = t ∷ p.sticky }) =
              rw (free, unwanted, mentioned) at i in
            (k, λ n e. s n (grown (object_of t) (kept_names p.sticky) n e))
        | inr other ↦ rw (free, unwanted, other) at i
      ]
    ]
  ]

  place-stays :
      (t : Json) (m : Option Members) (p : Partition)
      → object_of t ≡ m
      → InKeep (place_tool want referenced t m p)
      → required want referenced m ≡ true
      → stays keep m ≡ true
  unfolding place_tool kept_names required stays
  place-stays t none p o i r = absurd (no_flag r)
  place-stays t (some m) p o i r = elim (Bool-cases (is_sticky m)) [
    | inl sticky ↦ rw sticky refl
    | inr free ↦ elim (Bool-cases (in_set want (tool_name_of m))) [
      | inl wanted ↦
          let (k, s) : InKeep (record p { kept = t ∷ p.kept }) = rw (free, wanted) at i in
          rw free (k (tool_name_of m) (rw o (named m (kept_names p.kept) free)))
      | inr unwanted ↦ elim (Bool-cases (in_set referenced (tool_name_of m))) [
        | inl mentioned ↦
            let (k, s) : InKeep (record p { sticky = t ∷ p.sticky }) =
              rw (free, unwanted, mentioned) at i in
            rw free (s (tool_name_of m) (rw o (named m (kept_names p.sticky) free)))
        | inr other ↦ absurd (no_flag (rw (free, unwanted, other) at r))
      ]
    ]
  ]

  pub required-stay :
      (tools : List Json)
      → InKeep (partition_tools want referenced tools)
      → All
          (λ t. required want referenced (object_of t) ≡ true → stays keep (object_of t) ≡ true)
          tools
  unfolding partition_tools
  required-stay [] i = tt
  required-stay (t ∷ tools) i =
      let p = partition_tools want referenced tools in
      (place-stays t (object_of t) p refl i, required-stay tools (place-InKeep t (object_of t) p i))

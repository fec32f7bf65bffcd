-- ===== src/Tools/Kept.antt =====
-- The catalog that RewriteWith writes.
use jev_routing.Prelude.{
  ◌≡◌, refl, sym, ap, ◌∙◌, inl, inr, Bool, true, false, not, ◌&&◌, ◌||◌, Option, none, some, List,
  [], ◌∷◌, if◌then◌else◌, All, Bool-cases, arith,
}
use jev_routing.Text.{Str}
use jev_routing.Json.{Json, Members}
use jev_routing.Plan.Goals.{in_set, Visit}
use jev_routing.Tools.{object_of, tool_name_of, is_sticky, flatten_catalog}
use jev_routing.Tools.Narrow.{
  names_of, resolve_names, Partition, place_tool, partition_tools, joined, any_name, filter_tools,
  locate_pair_name, add_located, name_of, located, keep_locate_pair, kept_names, stays, inner_tools,
  reconstruct_catalog, rebuild, unless_empty, narrow_catalog,
}
use jev_routing.Tools.Rebuilt.{flatten-rebuild}
use jev_routing.Tools.Chosen.{
  required, permitted, pick_tools, AreAmong, in_set-append, kept_names-append, inner_tools-AreAmong,
  pick_tools-inner_tools, inner_tools-All, Within, no_flag, add-Within, partition-Placed,
}
use jev_routing.Tools.Narrowed.{required-stay}

abbrev pub is_wanted : List Str → Option Members → Bool
is_wanted want none = false
is_wanted want (some m) = not (is_sticky m) && in_set want (tool_name_of m)

-- A tool that may be removed has a wanted name.
unfoldable pub any_wanted : List Str → List Json → Bool
any_wanted want [] = false
any_wanted want (t ∷ tools) = is_wanted want (object_of t) || any_wanted want tools

abbrev pub is_nonempty : List Json → Bool
is_nonempty [] = false
is_nonempty (t ∷ tools) = true

place-nonempty :
    (want referenced : List Str) (t : Json) (m : Option Members) (p : Partition)
    → is_wanted want m || is_nonempty p.kept ≡ true
    → is_nonempty (place_tool want referenced t m p).kept ≡ true
unfolding place_tool
place-nonempty want referenced t none p h = h
place-nonempty want referenced t (some m) p h = ground (arith, h)

partition-nonempty :
    (want referenced : List Str) (tools : List Json)
    → any_wanted want tools ≡ true
    → is_nonempty (partition_tools want referenced tools).kept ≡ true
unfolding any_wanted partition_tools
partition-nonempty want referenced [] h = absurd (no_flag h)
partition-nonempty want referenced (t ∷ tools) h =
    place-nonempty want referenced t (object_of t) (partition_tools want referenced tools)
      (ground (arith, partition-nonempty want referenced tools))

pair_name :
    (t : Json) (m : Option Members) (have : List Str)
    → add_located t m have ≡ true
    → locate_pair_name (name_of m) ≡ true
unfolding add_located
pair_name t none have h = absurd (no_flag h)
pair_name t (some m) have h = ground (arith, h)

located-Within :
    (tools : List Json) (have : List Str)
    → Within locate_pair_name (kept_names (located tools have))
unfolding located kept_names in_set
located-Within [] have n e = absurd (no_flag e)
located-Within (t ∷ tools) have n e = elim (Bool-cases (add_located t (object_of t) have)) [
  | inl more ↦
      add-Within locate_pair_name (object_of t)
        (kept_names (located tools (name_of (object_of t) ∷ have)))
        (pair_name t (object_of t) have more) (located-Within tools (name_of (object_of t) ∷ have))
        n (rw more at e)
  | inr rest ↦ located-Within tools have n (rw rest at e)
]

or_false : (b : Bool) → b ≡ b || false
or_false true = refl
or_false false = refl

in_set-joined :
    (k s : List Json) (n : Str)
    → is_nonempty k ≡ true
    → in_set (kept_names (joined k s)) n ≡ in_set (kept_names k) n || in_set (kept_names s) n
in_set-joined [] s n h = absurd (no_flag h)
in_set-joined (t ∷ k) s n h =
    ap (λ r. in_set r n) (kept_names-append (t ∷ k) s)
    ∙ in_set-append (kept_names (t ∷ k)) (kept_names s) n

-- `kept` after keepLocatePair, where that is called.
abbrev pub with_pair : Bool → List Json → List Json → List Json
with_pair locate tools kept = if locate then keep_locate_pair tools kept else kept

module _ (want referenced : List Str) (tools : List Json)
    (some_wanted : any_wanted want tools ≡ true) where
  abbrev parts : Partition
  parts = partition_tools want referenced tools

  in_set-with_pair :
      (locate : Bool) (n : Str)
      → in_set (kept_names (with_pair locate tools (joined parts.kept parts.sticky))) n
        ≡ (in_set (kept_names parts.kept) n || in_set (kept_names parts.sticky) n)
          || (locate
              && in_set (kept_names (located tools (names_of (joined parts.kept parts.sticky)))) n)
  unfolding keep_locate_pair
  in_set-with_pair false n =
      in_set-joined parts.kept parts.sticky n (partition-nonempty want referenced tools some_wanted)
      ∙ or_false _
  in_set-with_pair true n =
      let k = joined parts.kept parts.sticky in
      ap (λ r. in_set r n) (kept_names-append k (located tools (names_of k)))
      ∙ in_set-append (kept_names k) (kept_names (located tools (names_of k))) n
      ∙ ap (λ b. b || in_set (kept_names (located tools (names_of k))) n)
          (in_set-joined parts.kept parts.sticky n
            (partition-nonempty want referenced tools some_wanted))

  kept-permitted :
      (locate : Bool) (m : Option Members)
      → stays (kept_names (with_pair locate tools (joined parts.kept parts.sticky))) m ≡ true
      → permitted locate want referenced m ≡ true
  unfolding stays permitted required
  kept-permitted locate none h = absurd (no_flag h)
  kept-permitted locate (some m) h =
      let n = tool_name_of m in
      let (k, s) = partition-Placed want referenced tools in
      let l = located-Within tools (names_of (joined parts.kept parts.sticky)) in
      ground (arith, h, in_set-with_pair locate n, k n, s n, l n)

  -- The narrowed catalog, given the names that are kept.
  narrowed :
      (locate : Bool) (raw : List Json)
      → tools ≡ flatten_catalog raw
      → let keep = kept_names (with_pair locate tools (joined parts.kept parts.sticky)) in
        AreAmong (flatten_catalog (rebuild keep raw)) tools
        × (pick_tools (required want referenced) (flatten_catalog (rebuild keep raw))
            ≡ pick_tools (required want referenced) tools)
        × All
            (λ t. permitted locate want referenced (object_of t) ≡ true)
            (flatten_catalog (rebuild keep raw))
  narrowed locate raw e =
      let keep = kept_names (with_pair locate tools (joined parts.kept parts.sticky)) in
      let f : flatten_catalog (rebuild keep raw) ≡ inner_tools keep tools =
        flatten-rebuild keep raw ∙ ap (inner_tools keep) (sym e) in
      let i = required-stay want referenced keep tools (
        λ n h. ground (arith, h, in_set-with_pair locate n),
        λ n h. ground (arith, h, in_set-with_pair locate n),
      ) in
      rw f (
        inner_tools-AreAmong keep tools,
        pick_tools-inner_tools (required want referenced) keep tools i,
        inner_tools-All (permitted locate want referenced) keep tools (kept-permitted locate),
      )

unless_empty-some : (kept out out' : List Json) → unless_empty kept out ≡ some out' → out' ≡ out
unless_empty-some [] out out' h = cc
unless_empty-some (t ∷ kept) out out' h = cc

none_wanted : (want : List Str) → any_wanted want (flatten_catalog []) ≡ true → ⊥
unfolding any_wanted flatten_catalog
none_wanted want h = no_flag h

no_some : {out : List Json} → none ≡ some out → ⊥
no_some h = cc

-- If RewriteWith narrows a catalog to names of which one is that of a tool that may be removed, the
-- tools of the new catalog are some of those of the old one, in their order; none is lost that is
-- sticky, wanted or referred to by the history, and each that is left is one of these or, where the
-- user asks to locate, has a name of the pair of search and read.
pub narrow_catalog-keeps :
    (visit : Visit) (locate : Bool) (raw : List Json) (names referenced : List Str)
    (out : List Json)
    → any_wanted (resolve_names visit (names_of (flatten_catalog raw)) names) (flatten_catalog raw)
      ≡ true
    → narrow_catalog visit locate raw names referenced ≡ some out
    → let tools = flatten_catalog raw in
      let want = resolve_names visit (names_of tools) names in
      AreAmong (flatten_catalog out) tools
      × (pick_tools (required want referenced) (flatten_catalog out)
          ≡ pick_tools (required want referenced) tools)
      × All (λ t. permitted locate want referenced (object_of t) ≡ true) (flatten_catalog out)
unfolding narrow_catalog filter_tools reconstruct_catalog
narrow_catalog-keeps visit locate [] names referenced out w e = absurd (none_wanted _ w)
narrow_catalog-keeps visit locate (r ∷ rs) names referenced out w e =
    let raw = r ∷ rs in
    let tools = flatten_catalog raw in
    let want = resolve_names visit (names_of tools) names in
    elim (Bool-cases (any_name want)) [
      | inl resolved ↦
          let p = partition_tools want referenced tools in
          let kept = with_pair locate tools (joined p.kept p.sticky) in
          let same : out ≡ rebuild (kept_names kept) raw =
            unless_empty-some kept _ out (rw resolved at e) in
          rw same (narrowed want referenced tools w locate raw refl)
      | inr unresolved ↦ absurd (no_some (rw unresolved at e))
    ]

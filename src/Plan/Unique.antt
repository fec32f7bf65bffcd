-- ===== src/Plan/Unique.antt =====
-- The invariant of a catalog: no two items have one ID, and each has the target that its kind needs.
use jev_routing.Prelude.{
  ◌+◌, ◌≡◌, refl, ◌⊎◌, inl, inr, true, false, not, ◌||◌, Option, none, some, List, [], ◌∷◌, ◌++◌,
  arith, if◌then◌else◌, Bool-cases,
}
use jev_routing.Text.{Str, str_eq, is_blank}
use jev_routing.Text.Laws.{str_eq_iff}
use jev_routing.Host.{HostId}
use jev_routing.Plan.Catalog.{
  Capability, Catalog, is_bound, judgment_desc, with_id, has_id, add, add_unique, or_items,
  merge_loop, merge,
}
use jev_routing.Plan.Build.{
  Inventory, PluginIn, Building, add_to, add_all, Adopting, adopt, add_child, add_children,
  add_plugin, add_plugins, build_items, build_catalog, capabilities_from_specs, skill_capabilities,
  cli_capabilities, model_capabilities, subagent_capabilities,
}

abbrev pub Bound : Capability → Type 0
Bound c = is_bound c.target c.kind ≡ true

-- Each item is bound, and no later item has its ID.
unfoldable pub IsCatalog : List Capability → Type 0
IsCatalog [] = Unit
IsCatalog (c ∷ cs) = Bound c × ((has_id cs c.id ≡ false) × IsCatalog cs)

str_eq_swap : (a b : Str) → str_eq a b ≡ false → str_eq b a ≡ false
str_eq_swap a b h = ground (arith, str_eq_iff a b, str_eq_iff b a)

has_id-append :
    (cs : List Capability) (c : Capability) (id : Str)
    → has_id cs id ≡ false
    → str_eq c.id id ≡ false
    → has_id (cs ++ (c ∷ [])) id ≡ false
unfolding has_id
has_id-append [] c id h e = rw e
has_id-append (x ∷ cs) c id h e = ground (arith, has_id-append cs c id)

IsCatalog-append :
    (cs : List Capability) (c : Capability)
    → IsCatalog cs
    → Bound c
    → has_id cs c.id ≡ false
    → IsCatalog (cs ++ (c ∷ []))
unfolding IsCatalog has_id
IsCatalog-append [] c i b fresh = (b, (refl, tt))
IsCatalog-append (x ∷ cs) c i b fresh =
    let apart : str_eq x.id c.id ≡ false = ground arith in
    let later : has_id cs c.id ≡ false = ground arith in
    (
      i.0,
      (
        has_id-append cs c x.id i.1.0 (str_eq_swap x.id c.id apart),
        IsCatalog-append cs c i.1.1 b later,
      ),
    )

abbrev pub Keeps : Option (List Capability) → Type 0
Keeps none = Unit
Keeps (some cs) = IsCatalog cs

add-Keeps : (cs : List Capability) (given : Capability) → IsCatalog cs → Keeps (add cs given)
unfolding add
add-Keeps cs given i = by_identity (
    Bool-cases (
      is_blank given.kind
      || (is_blank given.name || (is_blank given.provider || is_blank given.version))))
  where
    item : Capability
    item = with_id given

    described : Capability
    described = record item { description = judgment_desc item.description }

    by_id :
        is_bound item.target item.kind ≡ true
        → (has_id cs item.id ≡ true) ⊎ (has_id cs item.id ≡ false)
        → Keeps (if has_id cs item.id then none else some (cs ++ (described ∷ [])))
    by_id b (inl taken) = rw taken tt
    by_id b (inr fresh) = rw fresh (IsCatalog-append cs described i b fresh)

    by_target :
        (is_bound item.target item.kind ≡ true) ⊎ (is_bound item.target item.kind ≡ false)
        → Keeps (
            if not (is_bound item.target item.kind)
            then none
            else if has_id cs item.id
            then none
            else some (cs ++ (described ∷ [])))
    by_target (inl b) = rw b (by_id b (Bool-cases (has_id cs item.id)))
    by_target (inr loose) = rw loose tt

    by_identity :
        (is_blank given.kind
              || (is_blank given.name || (is_blank given.provider || is_blank given.version))
            ≡ true)
          ⊎ (is_blank given.kind
                || (is_blank given.name || (is_blank given.provider || is_blank given.version))
              ≡ false)
        → Keeps (add cs given)
    by_identity (inl lacking) = rw lacking tt
    by_identity (inr named) = rw named (by_target (Bool-cases (is_bound item.target item.kind)))

add_unique-Keeps :
    (cs : List Capability) (given : Capability) → IsCatalog cs → Keeps (add_unique cs given)
unfolding add_unique
add_unique-Keeps cs given i = elim (Bool-cases (has_id cs (with_id given).id)) [
  | inl taken ↦ rw taken i
  | inr fresh ↦ rw fresh (add-Keeps cs (with_id given) i)
]

or_items-IsCatalog :
    (o : Option (List Capability)) (cs : List Capability)
    → Keeps o
    → IsCatalog cs
    → IsCatalog (or_items o cs)
or_items-IsCatalog none cs k i = i
or_items-IsCatalog (some new) cs k i = k

merge_loop-IsCatalog : (new cs : List Capability) → IsCatalog cs → IsCatalog (merge_loop cs new)
unfolding merge_loop
merge_loop-IsCatalog [] cs i = i
merge_loop-IsCatalog (c ∷ new) cs i =
    merge_loop-IsCatalog new (or_items (add_unique cs c) cs)
      (or_items-IsCatalog (add_unique cs c) cs (add_unique-Keeps cs c i) i)

-- Merge keeps the invariant: the IDs stay distinct and every item stays bound.
merge-IsCatalog :
    (hash : Str → Str) (c : Catalog) (new : List Capability)
    → IsCatalog c.items
    → IsCatalog (merge hash c new).items
unfolding merge
merge-IsCatalog hash c new i = merge_loop-IsCatalog new c.items i

abbrev Good : Building → Type 0
Good b = IsCatalog b.items

add_to-Good : (b : Building) (c : Capability) → Good b → Good (add_to b c)
unfolding add_to
add_to-Good b c g = by_result (add b.items c) (add-Keeps b.items c g)
  where
    by_result :
        (o : Option (List Capability))
        → Keeps o
        → Good (elim o [
          | none ↦ record b { errors = b.errors + 1 }
          | some items ↦ record b { items = items }
        ])
    by_result none k = g
    by_result (some items) k = k

add_all-Good : (cs : List Capability) (b : Building) → Good b → Good (add_all b cs)
unfolding add_all
add_all-Good [] b g = g
add_all-Good (c ∷ cs) b g = add_all-Good cs (add_to b c) (add_to-Good b c g)

add_child-Good : (a : Adopting) (c : Capability) → Good a.built → Good (add_child a c).built
unfolding add_child
add_child-Good a c g = by_result (add_unique a.built.items c) (add_unique-Keeps a.built.items c g)
  where
    by_result :
        (o : Option (List Capability))
        → Keeps o
        → let r : Adopting = elim o [
          | none ↦ record a {
            built = record { items = a.built.items; errors = a.built.errors + 1 };
          }
          | some items ↦ record {
            built = record { items = items; errors = a.built.errors };
            child_ids = a.child_ids ++ (c.id ∷ []);
          }
        ] in
          Good r.built
    by_result none k = g
    by_result (some items) k = k

add_children-Good :
    (s : PluginIn) (cs : List Capability) (a : Adopting)
    → Good a.built
    → Good (add_children s a cs).built
unfolding add_children
add_children-Good s [] a g = g
add_children-Good s (c ∷ cs) a g =
    add_children-Good s cs (add_child a (adopt s c)) (add_child-Good a (adopt s c) g)

add_plugins-Good : (ss : List PluginIn) (b : Building) → Good b → Good (add_plugins b ss)
unfolding add_plugins add_plugin
add_plugins-Good [] b g = g
add_plugins-Good (s ∷ ss) b g =
    add_plugins-Good ss (add_plugin b s)
      (add_to-Good _ _ (add_children-Good s s.children (record { built = b; child_ids = [] }) g))

-- BuildCatalog returns a catalog with distinct IDs whose items are all bound, for every inventory,
-- whether or not it reports an error.
pub build_catalog-IsCatalog :
    (hash : Str → Str) (inv : Inventory) (h : HostId) → IsCatalog (build_catalog hash inv h).0.items
unfolding build_catalog build_items IsCatalog
build_catalog-IsCatalog hash inv h =
    let tools =
      add_all-Good (capabilities_from_specs inv.tools h) (record { items = []; errors = 0 }) tt in
    let skills = add_all-Good (skill_capabilities inv.skills) _ tools in
    let clis = add_all-Good (cli_capabilities inv.clis) _ skills in
    let models = add_all-Good (model_capabilities inv.models) _ clis in
    let subagents = add_all-Good (subagent_capabilities inv.subagents) _ models in
    add_plugins-Good inv.plugins _ subagents

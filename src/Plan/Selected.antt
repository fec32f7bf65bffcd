-- ===== src/Plan/Selected.antt =====
-- What Route may select.
use jev_routing.Prelude.{
  ◌≡◌, refl, sym, ◌∙◌, ap, ◌⊎◌, inl, inr, Bool, true, false, not, ◌&&◌, Option, none, some, List,
  [], ◌∷◌, map, arith, if◌then◌else◌, Bool-cases, Option-cases,
}
use jev_routing.Text.{Str, lit, str_eq, is_blank, trim_space}
use jev_routing.Text.Laws.{str_eq_iff}
use jev_routing.Plan.Catalog.{Capability, installed, is_bound, is_eligible, eligible_of, no_items}
use jev_routing.Plan.Decide.{Outcome, selected, excluded, defer, decide_specs}
use jev_routing.Plan.Route.{
  RouteRequest, route_selected, no_decision, RouteResult, Answer, ChoiceAsker, Runtime, no_match,
  by_id, is_valid_id, all_valid, is_scored, scored_of, find_name, id_of_name, spec_of, refuse,
  settle, route_answer, route_ask, local_choice, local_id, route_local, route_explicit,
  route_wanted, undecided_result, is_stale, route,
}

unfoldable pub Member : Capability → List Capability → Type 0
Member c [] = ⊥
Member c (x ∷ xs) = (c ≡ x) ⊎ Member c xs

-- An installed item of the catalog has the ID `id`; it is bound, or the classifier chose it.
abbrev pub Names : List Capability → Str → Str → Type 0
Names items source id =
    (c : Capability) × Member c items
    × (c.id ≡ id)
    × (str_eq c.availability installed ≡ true)
    × ((is_bound c.target c.kind ≡ true) ⊎ (source ≡ lit "jev"))

unfoldable pub Selects : List Capability → RouteResult → Type 0
Selects items r = r.outcome ≡ route_selected → Names items r.source r.capability_id

by_id-Member :
    (items : List Capability) (id : Str) (c : Capability)
    → by_id items id ≡ some c
    → Member c items × (c.id ≡ id)
unfolding by_id Member
by_id-Member [] id c e = cc
by_id-Member (x ∷ xs) id c e = elim (Option-cases (by_id xs id)) [
  | inr (d, found) ↦
      let h : some d ≡ some c = rw found at e in
      let m = by_id-Member xs id c (found ∙ h) in (inr m.0, m.1)
  | inl missing ↦ here (Bool-cases (str_eq x.id id)) (rw missing at e)
]
  where
    here :
        (str_eq x.id id ≡ true) ⊎ (str_eq x.id id ≡ false)
        → (if str_eq x.id id then some x else none) ≡ some c
        → ((c ≡ x) ⊎ Member c xs) × (c.id ≡ id)
    here (inl same) h =
        let e2 : x ≡ c = ground arith in
        (inl (sym e2), ap (λ (k : Capability). k.id) (sym e2) ∙ (str_eq_iff x.id id).0 same)
    here (inr differs) h = absurd (ground arith)

eligible-Member :
    (items : List Capability) (c : Capability)
    → Member c (eligible_of items)
    → Member c items × (is_eligible c ≡ true)
unfolding eligible_of Member
eligible-Member [] c m = absurd m
eligible-Member (x ∷ xs) c m = elim (Bool-cases (is_eligible x)) [
  | inl fits ↦ split fits (rw fits at m) (eligible-Member xs c)
  | inr unfit ↦ let r = eligible-Member xs c (rw unfit at m) in (inr r.0, r.1)
]
  where
    split :
        is_eligible x ≡ true
        → (c ≡ x) ⊎ Member c (eligible_of xs)
        → (Member c (eligible_of xs) → Member c xs × (is_eligible c ≡ true))
        → ((c ≡ x) ⊎ Member c xs) × (is_eligible c ≡ true)
    split fits (inl same) ih = (inl same, rw same fits)
    split fits (inr later) ih = let r = ih later in (inr r.0, r.1)

scored-Member :
    (items : List Capability) (c : Capability) → Member c (scored_of items) → Member c items
unfolding scored_of Member
scored-Member [] c m = absurd m
scored-Member (x ∷ xs) c m = elim (Bool-cases (is_scored x)) [
  | inl fits ↦ split (rw fits at m) (scored-Member xs c)
  | inr unfit ↦ inr (scored-Member xs c (rw unfit at m))
]
  where
    split :
        (c ≡ x) ⊎ Member c (scored_of xs)
        → (Member c (scored_of xs) → Member c xs)
        → (c ≡ x) ⊎ Member c xs
    split (inl same) ih = inl same
    split (inr later) ih = inr (ih later)

find_name-Member :
    (items : List Capability) (name id : Str)
    → find_name items name ≡ some id
    → (c : Capability) × Member c items × (c.id ≡ id)
unfolding find_name Member
find_name-Member [] name id e = cc
find_name-Member (x ∷ xs) name id e = elim (Option-cases (find_name xs name)) [
  | inr (i, found) ↦
      let h : some i ≡ some id = rw found at e in
      let r = find_name-Member xs name id (found ∙ h) in (r.0, inr r.1, r.2)
  | inl missing ↦ here (Bool-cases (str_eq x.name name)) (rw missing at e)
]
  where
    here :
        (str_eq x.name name ≡ true) ⊎ (str_eq x.name name ≡ false)
        → (if str_eq x.name name then some x.id else none) ≡ some id
        → (c : Capability) × ((c ≡ x) ⊎ Member c xs) × (c.id ≡ id)
    here (inl same) k = (x, inl refl, ground arith)
    here (inr differs) k = absurd (ground arith)

id_of_name-Member :
    (items : List Capability) (name : Str)
    → is_blank (id_of_name items name) ≡ false
    → (c : Capability) × Member c items × (c.id ≡ id_of_name items name)
unfolding id_of_name
id_of_name-Member items name h = elim (Option-cases (find_name items name)) [
  | inl missing ↦ cc
  | inr (id, found) ↦ rw (found, id_of_name) (find_name-Member items name id found)
]

abbrev eligible_scored : List Capability → List Capability
eligible_scored items = scored_of (eligible_of items)

local_choice-Names :
    (items : List Capability) (name : Str) (o : Outcome) (passthrough : Bool)
    → let id = local_choice o passthrough (id_of_name (eligible_scored items) name) in
      is_blank id ≡ false → Names items (lit "local") id
unfolding local_choice is_eligible
local_choice-Names items name selected false h =
    let (c, m, e) = id_of_name-Member (eligible_scored items) name h in
    let g = eligible-Member items c (scored-Member (eligible_of items) c m) in
    (c, g.0, e, ground arith, inl (ground arith))
local_choice-Names items name selected true h = cc
local_choice-Names items name excluded p h = cc
local_choice-Names items name defer p h = cc

-- The ID that DecideSpecs leads to is that of an eligible item.
local_id-Names :
    (t : Runtime) (r : RouteRequest)
    → let items = r.catalog.items in
      let id = local_id t r (eligible_scored items) in
      is_blank id ≡ false → Names items (lit "local") id
unfolding local_id
local_id-Names t r h =
    let items = r.catalog.items in
    let d = decide_specs t.visit r.text r.actions (map spec_of (eligible_scored items)) r.host in
    local_choice-Names items d.tool d.outcome d.passthrough h

valid-Names :
    (items : List Capability) (source id : Str)
    → is_valid_id items id ≡ true
    → Names items source id
unfolding is_valid_id
valid-Names items source id h = elim (Option-cases (by_id items id)) [
  | inl missing ↦ absurd (ground arith)
  | inr (c, found) ↦
      let m = by_id-Member items id c found in
      let ok_c : str_eq c.availability installed && is_bound c.target c.kind ≡ true =
        rw (found, is_valid_id) at h in
      (c, m.0, m.1, ground arith, inl (ground arith))
]

if-Selects :
    (items : List Capability) (b : Bool) (x y : RouteResult)
    → (b ≡ true → Selects items x)
    → (b ≡ false → Selects items y)
    → Selects items (if b then x else y)
unfolding Selects
if-Selects items true x y f g = f refl
if-Selects items false x y f g = g refl

abbrev Idle : RouteResult → Type 0
Idle out = out.outcome ≡ no_decision

refuse-Selects :
    (items : List Capability) (out : RouteResult) (reason : Str)
    → Idle out
    → Selects items (refuse out reason)
unfolding Selects
refuse-Selects items out reason idle h = cc

settle-Selects :
    (items : List Capability) (out : RouteResult) (source reason id : Str)
    → Names items source id
    → Selects items (settle out source reason id)
unfolding Selects
settle-Selects items out source reason id n h = n

route_answer-Selects :
    (items : List Capability) (out : RouteResult) (a : Option Answer)
    → Idle out
    → Selects items (route_answer items out a)
unfolding route_answer
route_answer-Selects items out none idle = refuse-Selects items out _ idle
route_answer-Selects items out (some a) idle =
    if-Selects items (is_blank (trim_space a.choice)) _ _ (λ e. refuse-Selects items out _ idle)
      λ e.
        if-Selects items (str_eq a.choice no_match) _ _ (λ e2. refuse-Selects items out _ idle)
          λ e2. by_choice (by_id items a.choice) refl
  where
    by_choice :
        (o : Option Capability)
        → by_id items a.choice ≡ o
        → Selects items (elim o [
          | none ↦ refuse out (lit "invalid_id")
          | some c ↦
              if not (str_eq c.availability installed)
              then refuse out (lit "invalid_id")
              else settle out (lit "jev") (lit "jev") a.choice
        ])
    by_choice none missing = refuse-Selects items out _ idle
    by_choice (some c) found =
        let m = by_id-Member items a.choice c found in
        if-Selects items (not (str_eq c.availability installed)) _ _
          (λ e3. refuse-Selects items out _ idle)
          λ e3. settle-Selects items out _ _ _ (c, m.0, m.1, ground arith, inr refl)

route_ask-Selects :
    (r : RouteRequest) (out : RouteResult) (ask : Option ChoiceAsker)
    → Idle out
    → Selects r.catalog.items (route_ask r out ask)
unfolding route_ask
route_ask-Selects r out none idle = refuse-Selects r.catalog.items out _ idle
route_ask-Selects r out (some ask) idle = route_answer-Selects r.catalog.items out _ idle

route_local-Selects :
    (t : Runtime) (r : RouteRequest) (out : RouteResult) (ask : Option ChoiceAsker)
    → Idle out
    → Selects r.catalog.items (route_local t r out ask)
unfolding route_local
route_local-Selects t r out ask idle =
    let items = r.catalog.items in
    let none_scored = no_items (eligible_scored items) in
    if-Selects items (is_blank (if none_scored then [] else local_id t r (eligible_scored items))) _
      _ (λ e. route_ask-Selects r out ask idle)
      λ e. settle-Selects items out _ _ _ (chosen none_scored e)
  where
    chosen :
        (b : Bool)
        → is_blank (if b then [] else local_id t r (eligible_scored r.catalog.items)) ≡ false
        → Names r.catalog.items
            (lit "local")
            (if b then [] else local_id t r (eligible_scored r.catalog.items))
    chosen true e = cc
    chosen false e = local_id-Names t r e

route_wanted-Selects :
    (t : Runtime) (r : RouteRequest) (out : RouteResult) (ask : Option ChoiceAsker) (ids : List Str)
    → Idle out
    → Selects r.catalog.items (route_wanted t r out ask ids)
unfolding route_wanted route_explicit all_valid
route_wanted-Selects t r out ask [] idle =
    if-Selects r.catalog.items (no_items (eligible_of r.catalog.items)) _ _
      (λ e. refuse-Selects r.catalog.items out _ idle) λ e. route_local-Selects t r out ask idle
route_wanted-Selects t r out ask (id ∷ ids) idle =
    let items = r.catalog.items in
    if-Selects items (is_valid_id items id && all_valid items ids) _ _
      (λ e. settle-Selects items out _ _ _ (valid-Names items (lit "local") id (ground arith)))
      λ e. refuse-Selects items out _ idle

-- When Route selects a capability, its ID is that of an item of the catalog that is installed; the
-- item is bound to a target unless the classifier chose it. This holds for every request and
-- whatever the classifier answers.
pub route-Selects :
    (t : Runtime) (r : RouteRequest) (ask : Option ChoiceAsker)
    → Selects r.catalog.items (route t r ask)
unfolding route undecided_result
route-Selects t r ask =
    let out = undecided_result t r in
    if-Selects r.catalog.items (is_stale t r) _ _ (λ e. refuse-Selects r.catalog.items out _ refl)
      λ e. route_wanted-Selects t r out ask r.wanted refl

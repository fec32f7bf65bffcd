-- ===== src/Tools/Rebuilt.antt =====
-- The catalog that reconstructCatalog builds, as a list of tools.
use jev_routing.Prelude.{
  ◌≡◌, refl, sym, ap, ◌∙◌, inl, inr, true, false, some, List, [], ◌∷◌, ◌++◌, if◌then◌else◌,
  append_assoc, append-nil, Bool-cases,
}
use jev_routing.Text.{Str, lit, str_eq}
use jev_routing.Json.{
  Json, null, boolean, number, string, array, object, Members, elements, of_list, set, text_at,
}
use jev_routing.Json.Laws.{get-set, get-set_other}
use jev_routing.Tools.{object_of, is_local_wrapper, slice_at, flatten_one, flatten_catalog}
use jev_routing.Tools.Narrow.{stays, inner_tools, rewrap, rebuild_one, rebuild}

pub elements-of_list : (xs : List Json) → elements (of_list xs) ≡ xs
unfolding elements of_list
elements-of_list [] = refl
elements-of_list (x ∷ xs) = ap (λ r. x ∷ r) (elements-of_list xs)

flatten-append :
    (a b : List Json) → flatten_catalog (a ++ b) ≡ flatten_catalog a ++ flatten_catalog b
unfolding flatten_catalog
flatten-append [] b = refl
flatten-append (x ∷ a) b =
    ap (λ r. flatten_one x (object_of x) ++ r) (flatten-append a b)
    ∙ sym (append_assoc (flatten_one x (object_of x)) (flatten_catalog a) (flatten_catalog b))

pub inner_tools-append :
    (keep : List Str) (a b : List Json)
    → inner_tools keep (a ++ b) ≡ inner_tools keep a ++ inner_tools keep b
unfolding inner_tools
inner_tools-append keep [] b = refl
inner_tools-append keep (x ∷ a) b = elim (Bool-cases (stays keep (object_of x))) [
  | inl here ↦ rw here (ap (λ r. x ∷ r) (inner_tools-append keep a b))
  | inr gone ↦ rw gone (inner_tools-append keep a b)
]

-- The tools of a wrapper can be replaced: it stays one, and has the new ones.
wrapper-set :
    (m : Members) (v : Json) → is_local_wrapper (set (lit "tools") v m) ≡ is_local_wrapper m
unfolding is_local_wrapper text_at lit str_eq
wrapper-set m v =
    rw
      (
        get-set_other (lit "tools") (lit "type") v m refl,
        get-set_other (lit "tools") (lit "name") v m refl,
      )
      refl

slice-set :
    (m : Members) (xs : List Json)
    → slice_at "tools" (set (lit "tools") (array (of_list xs)) m) ≡ xs
unfolding slice_at
slice-set m xs = rw (get-set (lit "tools") (array (of_list xs)) m) (elements-of_list xs)

flatten-rewrap :
    (m : Members) (inner : List Json)
    → is_local_wrapper m ≡ true
    → flatten_catalog (rewrap m inner) ≡ inner
unfolding flatten_catalog flatten_one
flatten-rewrap m [] w = refl
flatten-rewrap m (t ∷ inner) w =
    let v = array (of_list (t ∷ inner)) in
    let still : is_local_wrapper (set (lit "tools") v m) ≡ true = wrapper-set m v ∙ w in
    rw still (append-nil _ ∙ slice-set m (t ∷ inner))

flatten-plain :
    (keep : List Str) (m : Members)
    → is_local_wrapper m ≡ false
    → flatten_catalog (if stays keep (some m) then object m ∷ [] else [])
      ≡ inner_tools keep (object m ∷ [])
unfolding flatten_catalog flatten_one inner_tools
flatten-plain keep m plain = elim (Bool-cases (stays keep (some m))) [
  | inl here ↦ rw here (rw plain refl)
  | inr gone ↦ rw gone refl
]

flatten-object :
    (keep : List Str) (m : Members)
    → flatten_catalog (rebuild_one keep (object m) (some m))
      ≡ inner_tools keep (flatten_one (object m) (some m))
unfolding rebuild_one flatten_one slice_at
flatten-object keep m = elim (Bool-cases (is_local_wrapper m)) [
  | inl wrapper ↦
      rw (wrapper, flatten_one) (flatten-rewrap m (inner_tools keep (slice_at "tools" m)) wrapper)
  | inr plain ↦ rw (plain, flatten_one) (flatten-plain keep m plain)
]

flatten-rebuild_one :
    (keep : List Str) (raw : Json)
    → flatten_catalog (rebuild_one keep raw (object_of raw))
      ≡ inner_tools keep (flatten_one raw (object_of raw))
unfolding rebuild_one flatten_one inner_tools stays flatten_catalog
flatten-rebuild_one keep null = refl
flatten-rebuild_one keep (boolean b) = refl
flatten-rebuild_one keep (number m e) = refl
flatten-rebuild_one keep (string s) = refl
flatten-rebuild_one keep (array xs) = refl
flatten-rebuild_one keep (object m) = flatten-object keep m

-- The tools of the catalog that is built are those of the original that stay, in their order.
pub flatten-rebuild :
    (keep : List Str) (original : List Json)
    → flatten_catalog (rebuild keep original) ≡ inner_tools keep (flatten_catalog original)
unfolding rebuild flatten_catalog inner_tools
flatten-rebuild keep [] = refl
flatten-rebuild keep (raw ∷ original) =
    flatten-append (rebuild_one keep raw (object_of raw)) (rebuild keep original)
    ∙ ap (λ r. r ++ flatten_catalog (rebuild keep original)) (flatten-rebuild_one keep raw)
    ∙ ap (λ r. inner_tools keep (flatten_one raw (object_of raw)) ++ r)
        (flatten-rebuild keep original)
    ∙ sym (inner_tools-append keep (flatten_one raw (object_of raw)) (flatten_catalog original))

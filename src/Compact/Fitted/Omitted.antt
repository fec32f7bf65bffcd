-- ===== src/Compact/Fitted/Omitted.antt =====
-- The indices of the rows that FitState leaves out.
use jev_routing.Prelude.{
  ℕ, ◌+◌, ◌≤◌, ◌≡◌, refl, inl, inr, false, List, [], ◌∷◌, ◌==◌, All, Bool-cases, arith,
}
use jev_routing.Compact.{Item}
use jev_routing.Compact.Candidates.{Indexed, indexed, is_pinned}
use jev_routing.Compact.Fitted.Stages.{is_tool, among}
use jev_routing.Compact.Fitted.Shown.{Allowed}

-- The items that share the index of `x` are `x`'s.
abbrev pub Agrees : List Indexed → Indexed → Type 0
Agrees all x = All (λ (y : Indexed). y.index ≡ x.index → y.item ≡ x.item) all

indexed-above :
    (low n : ℕ) (items : List Item)
    → low ≤ n
    → All (λ (x : Indexed). low ≤ x.index) (indexed n items)
unfolding indexed
indexed-above low n [] h = tt
indexed-above low n (it ∷ items) h = (h, indexed-above low (n + 1) items (omega arith))

head-Agrees :
    (x : Indexed) (xs : List Indexed)
    → All (λ (y : Indexed). x.index + 1 ≤ y.index) xs
    → All (λ (y : Indexed). y.index ≡ x.index → y.item ≡ x.item) xs
head-Agrees x [] above = tt
head-Agrees x (y ∷ ys) (h, above) = (λ e. absurd (omega arith), head-Agrees x ys above)

tail-Agrees :
    (x : Indexed) (all xs : List Indexed)
    → All (λ (y : Indexed). x.index + 1 ≤ y.index) xs
    → All (Agrees all) xs
    → All (Agrees (x ∷ all)) xs
tail-Agrees x all [] above a = tt
tail-Agrees x all (y ∷ ys) (h, above) (a, rest) =
    ((λ e. absurd (omega arith), a), tail-Agrees x all ys above rest)

pub indexed-Agrees : (n : ℕ) (items : List Item) → All (Agrees (indexed n items)) (indexed n items)
unfolding indexed
indexed-Agrees n [] = tt
indexed-Agrees n (it ∷ items) =
    let x : Indexed = record { index = n; item = it } in
    let above = indexed-above (n + 1) (n + 1) items (omega arith) in
    let rest = indexed-Agrees (n + 1) items in
    (
      (λ e. refl, head-Agrees x (indexed (n + 1) items) above),
      tail-Agrees x (indexed (n + 1) items) (indexed (n + 1) items) above rest,
    )

allow_one :
    (total recent : ℕ) (omitted : List ℕ) (x y : Indexed)
    → is_pinned x.index total recent ≡ false
    → is_tool x.item.kind ≡ false
    → (y.index ≡ x.index → y.item ≡ x.item)
    → Allowed total recent omitted y
    → Allowed total recent (x.index ∷ omitted) y
unfolding Allowed among
allow_one total recent omitted x y free message a o h = elim (Bool-cases (x.index == y.index)) [
  | inl same ↦
      let i : y.index ≡ x.index = ground arith in
      let e : y.item ≡ x.item = a i in (rw i free, rw e message)
  | inr other ↦ o (rw other at h)
]

-- An index that an unpinned message or summary has is added to the omitted ones.
pub allow_more :
    (total recent : ℕ) (omitted : List ℕ) (x : Indexed) (xs : List Indexed)
    → is_pinned x.index total recent ≡ false
    → is_tool x.item.kind ≡ false
    → All (λ (y : Indexed). y.index ≡ x.index → y.item ≡ x.item) xs
    → All (Allowed total recent omitted) xs
    → All (Allowed total recent (x.index ∷ omitted)) xs
unfolding Allowed among
allow_more total recent omitted x [] free message a o = tt
allow_more total recent omitted x (y ∷ ys) free message (a, as_) (o, os) = (
  allow_one total recent omitted x y free message a o,
  allow_more total recent omitted x ys free message as_ os,
)

pub no_index-Allowed : (total recent : ℕ) (xs : List Indexed) → All (Allowed total recent []) xs
unfolding Allowed among
no_index-Allowed total recent [] = tt
no_index-Allowed total recent (x ∷ xs) = (λ h. ground arith, no_index-Allowed total recent xs)

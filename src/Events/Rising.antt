-- ===== src/Events/Rising.antt =====
-- Events with rising numbers.
use jev_routing.Prelude.{
  ℕ, zero, suc, ◌+◌, ◌≤◌, ◌<◌, ◌≡◌, refl, sym, ap, Bool, true, false, List, [], ◌∷◌, ◌++◌, map,
  ◌==◌, if◌then◌else◌, drop, arith, Bool-cases, inl, inr,
}
use jev_routing.Events.{Event, update_first}
use jev_routing.Events.Spec.{changed_at}

-- The numbers rise, and none is over `top`.
unfoldable pub Rising : ℕ → ℕ → List Event → Type 0
Rising low top [] = low ≤ top
Rising low top (e ∷ es) = (low < e.seq) × Rising e.seq top es

Rising-top : (low top : ℕ) (es : List Event) → Rising low top es → low ≤ top
unfolding Rising
Rising-top low top [] r = r
Rising-top low top (e ∷ es) r = let h = Rising-top e.seq top es r.1 in omega arith

pub Rising-weak : (low top : ℕ) (es : List Event) → Rising low top es → Rising low (top + 1) es
unfolding Rising
Rising-weak low top [] r = omega arith
Rising-weak low top (e ∷ es) r = (r.0, Rising-weak e.seq top es r.1)

pub Rising-append :
    (low top : ℕ) (es : List Event) (e : Event)
    → Rising low top es
    → e.seq ≡ top + 1
    → Rising low (top + 1) (es ++ (e ∷ []))
unfolding Rising
Rising-append low top [] e r h = (omega arith, omega arith)
Rising-append low top (x ∷ xs) e r h = (r.0, Rising-append x.seq top xs e r.1 h)

pub Rising-changed :
    (low top seq : ℕ) (f : Event → Event) (es : List Event)
    → ((e : Event) → (f e).seq ≡ e.seq)
    → Rising low top es
    → Rising low top (map (changed_at seq f) es)
unfolding Rising
Rising-changed low top seq f [] h r = r
Rising-changed low top seq f (e ∷ es) h r =
    by_match (e.seq == seq) (Rising-changed e.seq top seq f es h r.1)
  where
    by_match :
        (b : Bool)
        → Rising e.seq top (map (changed_at seq f) es)
        → (low < (if b then f e else e).seq)
          × Rising (if b then f e else e).seq top (map (changed_at seq f) es)
    by_match false rest = (r.0, rest)
    by_match true rest = rw (h e) (r.0, rest)

unfoldable pub Rises : ℕ → List Event → Type 0
Rises top es = Rising 0 top es

changed-above :
    (low top seq : ℕ) (f : Event → Event) (es : List Event)
    → Rising low top es
    → seq ≤ low
    → map (changed_at seq f) es ≡ es
unfolding Rising
changed-above low top seq f [] r h = refl
changed-above low top seq f (e ∷ es) r h =
    let rest = changed-above e.seq top seq f es r.1 (omega arith) in
    let here : (e.seq == seq) ≡ false = ground arith in rw here (ap (◌∷◌ e) rest)

pub update_first-changed :
    (low top seq : ℕ) (f : Event → Event) (es : List Event)
    → Rising low top es
    → update_first seq f es ≡ map (changed_at seq f) es
unfolding Rising update_first
update_first-changed low top seq f [] r = refl
update_first-changed low top seq f (e ∷ es) r = elim (Bool-cases (e.seq == seq)) [
  | inl here ↦ rw here (ap (◌∷◌ (f e)) (sym (changed-above e.seq top seq f es r.1 (ground arith))))
  | inr there ↦ rw there (ap (◌∷◌ e) (update_first-changed e.seq top seq f es r.1))
]

pub Rising-drop :
    (n low top : ℕ) (es : List Event) → Rising low top es → (low' : ℕ) × Rising low' top (drop n es)
unfolding Rising
Rising-drop zero low top es r = (low, r)
Rising-drop (suc n) low top [] r = (low, r)
Rising-drop (suc n) low top (e ∷ es) r = Rising-drop n e.seq top es r.1

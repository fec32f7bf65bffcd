-- ===== src/Events/Tally.antt =====
-- What Counts counts.
use jev_routing.Prelude.{
  ℕ, ◌+◌, ◌≡◌, refl, sym, ap, ◌∙◌, false, List, [], ◌∷◌, ◌++◌, if◌then◌else◌, length, arith,
  Bool-cases, inl, inr,
}
use native.Mathlib.Nat.{zero-add, add-zero}
use jev_routing.Text.{Str, lit, str_eq, is_blank}
use jev_routing.Text.Laws.{str_eq_iff, str_eq_refl}
use jev_routing.Events.{Event, Log, Count, bump, bump_named, count_event, count_events, counts}

-- `out[key]`
unfoldable pub value_of : Str → List Count → ℕ
value_of key [] = 0
value_of key (c ∷ cs) = if str_eq c.key key then c.value else value_of key cs

unfoldable pub calls_in : List Event → ℕ
calls_in [] = 0
calls_in (e ∷ es) = e.jev_calls + calls_in es

-- How many events come from `source`.
unfoldable pub sourced_from : Str → List Event → ℕ
sourced_from source [] = 0
sourced_from source (e ∷ es) = (if str_eq e.source source then 1 else 0) + sourced_from source es

value_of-bump :
    (key : Str) (n : ℕ) (out : List Count) → value_of key (bump key n out) ≡ value_of key out + n
unfolding value_of bump
value_of-bump key n [] = rw (str_eq_refl key) (omega arith)
value_of-bump key n (c ∷ cs) = elim (Bool-cases (str_eq c.key key)) [
  | inl here ↦ rw here (rw (value_of, here))
  | inr later ↦ rw later (rw (value_of, later) (value_of-bump key n cs))
]

value_of-bump_other :
    (key other : Str) (n : ℕ) (out : List Count)
    → str_eq other key ≡ false
    → value_of key (bump other n out) ≡ value_of key out
unfolding value_of bump
value_of-bump_other key other n [] h = rw h
value_of-bump_other key other n (c ∷ cs) h =
    ground (arith, value_of-bump_other key other n cs h, str_eq_iff c.key other)

value_of-bump_named :
    (key prefix name : Str) (out : List Count)
    → str_eq (prefix ++ name) key ≡ false
    → value_of key (bump_named prefix name out) ≡ value_of key out
value_of-bump_named key prefix name out h = elim (Bool-cases (is_blank name)) [
  | inl blank ↦ rw blank
  | inr given ↦ rw given (value_of-bump_other key (prefix ++ name) 1 out h)
]

abbrev total : Str
total = lit "total"

total-count_event :
    (e : Event) (out : List Count) → value_of total (count_event e out) ≡ value_of total out + 1
unfolding count_event str_eq lit
total-count_event e out =
    value_of-bump_named total (lit "connect_") e.connect_status _ refl
    ∙ (value_of-bump_other total (lit "jev_failed") _ _ refl
        ∙ (value_of-bump_other total (lit "jev_cached") _ _ refl
            ∙ (value_of-bump_other total (lit "jev_calls") _ _ refl
                ∙ (value_of-bump_named total (lit "apply_") e.applied _ refl
                    ∙ (value_of-bump_named total (lit "source_") e.source _ refl
                        ∙ value_of-bump total 1 out)))))

abbrev calls : Str
calls = lit "jev_calls"

calls-count_event :
    (e : Event) (out : List Count)
    → value_of calls (count_event e out) ≡ value_of calls out + e.jev_calls
unfolding count_event str_eq lit
calls-count_event e out =
    value_of-bump_named calls (lit "connect_") e.connect_status _ refl
    ∙ (value_of-bump_other calls (lit "jev_failed") _ _ refl
        ∙ (value_of-bump_other calls (lit "jev_cached") _ _ refl
            ∙ (value_of-bump calls e.jev_calls _
                ∙ ap (λ n. n + e.jev_calls)
                    (value_of-bump_named calls (lit "apply_") e.applied _ refl
                      ∙ (value_of-bump_named calls (lit "source_") e.source _ refl
                          ∙ value_of-bump_other calls total 1 out refl)))))

abbrev of_source : Str → Str
of_source source = lit "source_" ++ source

source-bump :
    (source : Str)
    → is_blank source ≡ false
    → (e : Event) (out : List Count)
    → value_of (of_source source) (bump_named (lit "source_") e.source out)
      ≡ value_of (of_source source) out + (if str_eq e.source source then 1 else 0)
unfolding str_eq lit
source-bump source given e out = elim (Bool-cases (str_eq e.source source)) [
  | inl same ↦
      rw ((str_eq_iff e.source source).0 same, given, str_eq_refl source)
        (value_of-bump (of_source source) 1 out)
  | inr differs ↦ rw differs (
      value_of-bump_named (of_source source) (lit "source_") e.source out differs
      ∙ sym (add-zero _))
]

source-count_event :
    (source : Str)
    → is_blank source ≡ false
    → (e : Event) (out : List Count)
    → value_of (of_source source) (count_event e out)
      ≡ value_of (of_source source) out + (if str_eq e.source source then 1 else 0)
unfolding count_event str_eq lit
source-count_event source given e out =
    let key = of_source source in
    value_of-bump_named key (lit "connect_") e.connect_status _ refl
    ∙ (value_of-bump_other key (lit "jev_failed") _ _ refl
        ∙ (value_of-bump_other key (lit "jev_cached") _ _ refl
            ∙ (value_of-bump_other key (lit "jev_calls") _ _ refl
                ∙ (value_of-bump_named key (lit "apply_") e.applied _ refl
                    ∙ (source-bump source given e _
                        ∙ ap (λ n. n + (if str_eq e.source source then 1 else 0))
                            (value_of-bump_other key total 1 out refl))))))

module _ (key : Str) (worth : Event → ℕ) (sum : List Event → ℕ) (none_worth : sum [] ≡ 0)
    (first : (e : Event) (es : List Event) → sum (e ∷ es) ≡ worth e + sum es)
    (adds : (e : Event) (out : List Count)
      → value_of key (count_event e out) ≡ value_of key out + worth e) where
  value_of-count_events :
      (es : List Event) (out : List Count)
      → value_of key (count_events es out) ≡ value_of key out + sum es
  unfolding count_events
  value_of-count_events [] out = omega (arith, none_worth)
  value_of-count_events (e ∷ es) out =
      let later = value_of-count_events es (count_event e out) in
      omega (arith, later, first e es, adds e out)

  value_of-counts : (l : Log) → value_of key (counts l) ≡ sum l.items
  unfolding counts value_of
  value_of-counts l = value_of-count_events l.items [] ∙ zero-add (sum l.items)

-- Counts gives the number of events held under "total", the sum of their classifier calls under
-- "jev_calls", and under "source_" with the name of a source the number of events from it.
counts-value_of :
    (l : Log) (source : Str)
    → is_blank source ≡ false
    → (value_of (lit "total") (counts l) ≡ length l.items)
      × (value_of (lit "jev_calls") (counts l) ≡ calls_in l.items)
      × (value_of (lit "source_" ++ source) (counts l) ≡ sourced_from source l.items)
unfolding calls_in sourced_from
counts-value_of l source given = (
  value_of-counts total (λ e. 1) length refl (λ e es. omega arith) total-count_event l,
  value_of-counts calls (λ e. e.jev_calls) calls_in refl (λ e es. refl) calls-count_event l,
  value_of-counts (of_source source) _ (sourced_from source) refl (λ e es. refl)
      (source-count_event source given) l,
)

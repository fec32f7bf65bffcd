-- ===== src/Ask.antt =====
-- The client of the classifier, internal/jev/jev.go: the validation of its answers. A float64 is a
-- number of millionths or one of the values that are no number.
pub mod Shrink
pub mod Cache
pub mod Compaction
use jev_routing.Prelude.{
  ℕ, Bool, true, false, not, ◌&&◌, ◌||◌, Option, none, some, List, [], ◌∷◌, leb, if◌then◌else◌, ℤ,
  pos, negsuc,
}
use jev_routing.Text.{Str, lit, str_eq, is_blank}

pub data Float : Type 0 where
  nan : Float
  infinite : Bool → Float
  finite : ℤ → Float

-- finite01
unfoldable pub finite01 : Float → Bool
finite01 (finite (pos n)) = leb n 1000000
finite01 _ = false

pub record AskCriterion : Type 0 where
  pub key : Str
  pub text : Str

-- One entry of the map of questions.
pub record AskQuestion : Type 0 where
  pub id : Str
  pub type_name : Str
  pub instructions : Str
  pub criteria : List AskCriterion
  pub optional : Bool

pub record Noul : Type 0 where
  pub type_name : Str
  pub noul : Float
  pub conf : Float

pub record Probability : Type 0 where
  pub key : Str
  pub value : Float

pub record Choice : Type 0 where
  pub type_name : Str
  pub choice : Str
  pub probabilities : List Probability
  pub conf : Float

-- One entry of `Answers`, its value as the service sent it.
pub record RawAnswer : Type 0 where
  pub id : Str
  pub raw : Str

pub record AskUsage : Type 0 where
  pub input_tokens : Option ℤ
  pub output_tokens : Option ℤ

-- A nil map of answers has no entries either.
pub record Response : Type 0 where
  pub model : Str
  pub answers : List RawAnswer
  pub latency_ms : ℤ
  pub usage : Option AskUsage

-- encoding/json on the types of this package; `none` is an error. A field that is absent has its
-- zero value, and `noul_field` and `confidence_field` tell whether one is there.
pub record Decoder : Type 0 where
  pub noul : Str → Option Noul
  pub noul_field : Str → Option (Option Float)
  pub choice : Str → Option Choice
  pub confidence_field : Str → Option (Option Float)
  pub response : Str → Option Response

-- `r.Answers[id]`, empty where there is none
unfoldable pub answer_at : Str → List RawAnswer → Str
answer_at id [] = []
answer_at id (a ∷ rest) = if str_eq a.id id then a.raw else answer_at id rest

-- The field was decoded and is there.
unfoldable pub is_there : Option (Option Float) → Bool
is_there (some (some v)) = true
is_there _ = false

unfoldable pub check_noul : Bool → Option Noul → Option Noul
check_noul present none = none
check_noul present (some n) =
    if str_eq n.type_name (lit "noul") && (present && (finite01 n.noul && finite01 n.conf))
    then some n
    else none

-- ParseNoul
unfoldable pub parse_noul : Decoder → Response → Str → Option Noul
parse_noul d r id =
    let raw = answer_at id r.answers in
    if is_blank raw then none else check_noul (is_there (d.noul_field raw)) (d.noul raw)

unfoldable pub check_choice : Bool → Option Choice → Option Choice
check_choice present none = none
check_choice present (some c) =
    if (is_blank c.type_name || str_eq c.type_name (lit "choice"))
      && (present && (not (is_blank c.choice) && finite01 c.conf))
    then some c
    else none

-- ParseChoice
unfoldable pub parse_choice : Decoder → Response → Str → Option Choice
parse_choice d r id =
    let raw = answer_at id r.answers in
    if is_blank raw then none else check_choice (is_there (d.confidence_field raw)) (d.choice raw)

-- NoulOf
unfoldable pub noul_of : Decoder → Response → Str → Float
noul_of d r id = elim (parse_noul d r id) [ none ↦ finite (pos 0) | some n ↦ n.noul ]

-- ChoiceOf
unfoldable pub choice_of : Decoder → Response → Str → Str
choice_of d r id = elim (parse_choice d r id) [ none ↦ [] | some c ↦ c.choice ]

pub data Validated : Type 0 where
  valid : Choice → Validated
  missing_answer invalid_id : Validated

unfoldable pub is_allowed : Option (List Str) → Str → Bool
is_allowed none id = true
is_allowed (some []) id = false
is_allowed (some (a ∷ allowed)) id = str_eq a id || is_allowed (some allowed) id

unfoldable pub validate_parsed : Option (List Str) → Option Choice → Validated
validate_parsed allowed none = missing_answer
validate_parsed allowed (some c) = if is_allowed allowed c.choice then valid c else invalid_id

-- ValidateChoice, the IDs that `allowed` maps to true as a list
unfoldable pub validate_choice : Decoder → Response → Str → Option (List Str) → Validated
validate_choice d r id allowed = validate_parsed allowed (parse_choice d r id)

abbrev pub is_given {ℓ} : {A : Type ℓ} → Option A → Bool
is_given none = false
is_given (some a) = true

-- What one question needs of a response that is cached.
unfoldable pub is_answered : Decoder → Response → AskQuestion → Bool
is_answered d r q =
    let raw = answer_at q.id r.answers in
    if q.optional && is_blank raw
    then true
    else if str_eq q.type_name (lit "noul")
    then is_given (parse_noul d r q.id)
    else if str_eq q.type_name (lit "choice")
    then is_given (parse_choice d r q.id)
    else not (is_blank raw)

-- answersValidForCache
unfoldable pub answers_valid : Decoder → Response → List AskQuestion → Bool
answers_valid d r [] = true
answers_valid d r (q ∷ qs) = is_answered d r q && answers_valid d r qs

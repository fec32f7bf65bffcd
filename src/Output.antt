-- ===== src/Output.antt =====
-- Cutting the tool outputs of a Codex request, internal/proxy/codex_tool_output.go.
pub mod Cuts
pub mod Local
use jev_routing.Prelude.{
  ℕ, zero, suc, ◌+◌, ◌-◌, ◌/◌, min, max, Bool, true, false, not, ◌||◌, Option, none, some, List, [],
  ◌∷◌, ◌++◌, leb, ltb, if◌then◌else◌, length, take, drop,
}
use jev_routing.Text.{Str, lit, str_eq, decimal}
use jev_routing.Text.Utf8.{is_valid}
use jev_routing.Json.{
  Json, Elements, Members, null, boolean, number, string, array, object, nil, cons, get, set,
  text_at,
}
use jev_routing.Host.{one_of}

-- utf8HeadLen, the loop: `n` is at most the length of `s`.
unfoldable pub head_loop : Str → ℕ → ℕ
head_loop s zero = 0
head_loop s (suc n) =
    let shorter = head_loop s n in if is_valid (take (suc n) s) then suc n else shorter

unfoldable pub utf8_head_len : Str → ℕ → ℕ
utf8_head_len s n = head_loop s (min n (length s))

-- utf8TailStart, the loop: `rest` is the part of the text from `start` on.
unfoldable pub tail_loop : Str → ℕ → ℕ
tail_loop [] start = start
tail_loop (b ∷ rest) start =
    let later = tail_loop rest (start + 1) in if is_valid (b ∷ rest) then start else later

unfoldable pub utf8_tail_start : Str → ℕ → ℕ
utf8_tail_start s start = let from = min start (length s) in tail_loop (drop from s) from

-- The note in place of what is omitted.
unfoldable pub note : ℕ → ℕ → Str
note omitted total =
    lit "\n[jev-routing: omitted "
    ++ (decimal omitted
        ++ (lit " of "
            ++ (decimal total
                ++ lit
                    " bytes from the middle of this tool output; re-run a narrower command (e.g. sed -n 'A,Bp' or rg) to see the omitted part]\n")))

pub record Middle : Type 0 where
  pub out : Str
  pub omitted : ℕ
  pub did : Bool

-- truncateMiddle; `limit` is its `max`.
unfoldable pub truncate_middle : Str → ℕ → Middle
truncate_middle s limit =
    let half = limit / 2 in
    let head_len = utf8_head_len s half in
    let found = utf8_tail_start s (length s - half) in
    let tail_start = (if ltb found head_len then head_len else found) in
    let omitted = tail_start - head_len in
    if leb (length s) limit then record { out = s; omitted = 0; did = false } else record {
      out = take head_len s ++ (note omitted (length s) ++ drop tail_start s);
      omitted = omitted;
      did = true;
    }

-- codexTruncatableOutput
unfoldable pub truncatable : Str → Bool
truncatable typ = one_of typ (
    "function_call_output" ∷ "custom_tool_call_output" ∷ "local_shell_call_output"
    ∷ "shell_call_output" ∷ [])

-- The two results of applyCodexToolOutputMax.
pub record Cut : Type 0 where
  pub truncated : ℕ
  pub bytes_cut : ℕ

abbrev pub no_cut : Cut
no_cut = record { truncated = 0; bytes_cut = 0 }

-- A value in the middle of the walk, with the results so far.
pub record Walked (A : Type 0) : Type 0 where
  pub value : A
  pub cut : Cut

abbrev pub add_cut : ℕ → Cut → Cut
add_cut n c = record { truncated = c.truncated + 1; bytes_cut = c.bytes_cut + n }

-- `v[key]` is the text `text`.
unfoldable pub cut_text : ℕ → Str → Str → Members → Cut → Walked Members
cut_text limit key text v c =
    let r = truncate_middle text limit in
    if r.did
    then record { value = set key (string r.out) v; cut = add_cut r.omitted c }
    else record { value = v; cut = c }

abbrev pub text_key : Str
text_key = lit "text"

abbrev pub output_key : Str
output_key = lit "output"

unfoldable pub cut_part : ℕ → Json → Cut → Walked Json
cut_part limit (object pm) c = elim (get text_key pm) [
  | none ↦ record { value = object pm; cut = c }
  | some v ↦ elim v [
    | string text ↦
        let r = cut_text limit text_key text pm c in record { value = object r.value; cut = r.cut }
    | _ ↦ record { value = object pm; cut = c }
  ]
]
cut_part limit part c = record { value = part; cut = c }

unfoldable pub cut_parts : ℕ → Elements → Cut → Walked Elements
cut_parts limit nil c = record { value = nil; cut = c }
cut_parts limit (cons part parts) c =
    let first = cut_part limit part c in
    let rest = cut_parts limit parts first.cut in
    record { value = cons first.value rest.value; cut = rest.cut }

unfoldable pub cut_output : ℕ → Members → Option Json → Cut → Walked Members
cut_output limit m (some (string out)) c = cut_text limit output_key out m c
cut_output limit m (some (array parts)) c =
    let r = cut_parts limit parts c in
    record { value = set output_key (array r.value) m; cut = r.cut }
cut_output limit m _ c = record { value = m; cut = c }

unfoldable pub cut_item : ℕ → Json → Cut → Walked Json
cut_item limit (object m) c =
    let r = cut_output limit m (get output_key m) c in
    if truncatable (text_at "type" m)
    then record { value = object r.value; cut = r.cut }
    else record { value = object m; cut = c }
cut_item limit item c = record { value = item; cut = c }

unfoldable pub cut_items : ℕ → Elements → Cut → Walked Elements
cut_items limit nil c = record { value = nil; cut = c }
cut_items limit (cons item items) c =
    let first = cut_item limit item c in
    let rest = cut_items limit items first.cut in
    record { value = cons first.value rest.value; cut = rest.cut }

abbrev pub input_key : Str
input_key = lit "input"

-- The walk over `root["input"]`.
unfoldable pub cut_input : ℕ → Members → Option Json → Walked Members
cut_input limit root (some (array items)) =
    let r = cut_items limit items no_cut in
    record { value = set input_key (array r.value) root; cut = r.cut }
cut_input limit root _ = record { value = root; cut = no_cut }

-- applyCodexToolOutputMax; a limit of 0 stands for one below it as well.
unfoldable pub apply_output_max : ℕ → Members → Walked Members
apply_output_max zero root = record { value = root; cut = no_cut }
apply_output_max (suc n) root = cut_input (suc n) root (get input_key root)

-- ===== src/Stream.antt =====
-- Server-sent events, line by line: the loop that feedSSE of internal/proxy/usage.go and feedSSE of
-- internal/proxy/context_edit.go have in common. A collector is what follows a line, what follows
-- a line over the limit, and whether it has stopped.
pub mod Chunks
pub mod Writes
use jev_routing.Prelude.{
  ℕ, zero, suc, ◌+◌, ◌≡◌, Bool, true, false, Option, none, some, List, [], ◌∷◌, ◌++◌, map, ltb,
  ◌==◌, if◌then◌else◌, length, take, drop,
}
use jev_routing.Text.{Str}

-- usageParseLimit
abbrev pub parse_limit : ℕ
parse_limit = 1048576

-- indexNewLine
unfoldable pub index_new_line : Str → Option ℕ
index_new_line [] = none
index_new_line (b ∷ s) =
    if b == b'\n' then some 0 else elim (index_new_line s) [ none ↦ none | some n ↦ some (n + 1) ]

-- A line without the carriage return at its end.
unfoldable pub without_return : Str → Str
without_return [] = []
without_return (b ∷ []) = if b == b'\r' then [] else b ∷ []
without_return (b ∷ c ∷ s) = b ∷ without_return (c ∷ s)

pub record Collector (S : Type 0) : Type 0 where
  pub on_line : Str → S → S
  pub overflow : S → S
  pub stopped : S → Bool
  pub stops : (s : S) → stopped (overflow s) ≡ true

-- `sseBuf`, with the rest of the collector's state.
pub record Scan (S : Type 0) : Type 0 where
  pub buf : Str
  pub state : S

module _ {S : Type 0} (c : Collector S) where
  -- The loop; each round takes a line from the buffer, so `fuel` over its length is enough.
  unfoldable pub lines_loop : ℕ → Scan S → Scan S
  lines_loop zero x = x
  lines_loop (suc fuel) x = elim (index_new_line x.buf) [
    | none ↦
        if ltb parse_limit (length x.buf)
        then record { buf = []; state = c.overflow x.state }
        else x
    | some n ↦ lines_loop fuel (record {
      buf = drop (n + 1) x.buf;
      state = c.on_line (without_return (take n x.buf)) x.state;
    })
  ]

  -- feedSSE
  unfoldable pub feed : Str → Scan S → Scan S
  feed p x =
      if c.stopped x.state
      then x
      else lines_loop (suc (length (x.buf ++ p))) (record x { buf = x.buf ++ p })

-- ===== src/Gate.antt =====
-- The clear gate, internal/proxy/clear_gate.go: whether the tool results of a conversation may be
-- cleared. Each locked section of the code is one function; the question to the classifier runs
-- between two of them, while other requests go on. An entry is shared by pointer, so the state has
-- a heap of entries, and a pointer stays valid when its conversation is evicted.
pub mod Entries
pub mod Settled
pub mod Runs
pub mod Request
use jev_routing.Prelude.{
  ℕ, ◌+◌, ◌<◌, ◌≡◌, Bool, true, false, not, ◌&&◌, ◌||◌, Option, none, some, List, [], ◌∷◌, ◌++◌,
  ltb, ◌==◌, if◌then◌else◌, length,
}
use jev_routing.Text.{Str, str_eq, is_blank}

-- The values of `decision`; `undecided` is the empty string.
pub data Verdict : Type 0 where
  undecided asking clear keep_results failed : Verdict

pub record Entry : Type 0 where
  pub last_ctx : ℕ
  pub observed : Bool
  pub decision : Verdict
  pub reason : Str

abbrev pub new_entry : Entry
new_entry = record { last_ctx = 0; observed = false; decision = undecided; reason = [] }

pub record Slot : Type 0 where
  pub key : Str
  pub address : ℕ

-- `conv` and `order` of the store, the heap with its first free address, and the addresses that
-- requests hold while they ask.
pub record Store : Type 0 where
  pub conv : List Slot
  pub order : List Str
  pub heap : ℕ → Entry
  pub free : ℕ
  pub pending : List ℕ

abbrev pub store_max : ℕ
store_max = 4096

unfoldable pub find_slot : List Slot → Str → Option ℕ
find_slot [] key = none
find_slot (s ∷ ss) key = if str_eq s.key key then some s.address else find_slot ss key

-- `delete(conv, key)`
unfoldable pub delete_slot : Str → List Slot → List Slot
delete_slot key [] = []
delete_slot key (s ∷ ss) =
    let rest = delete_slot key ss in if str_eq s.key key then rest else s ∷ rest

-- Writing one entry.
unfoldable pub set_entry : ℕ → Entry → Store → Store
set_entry a e s = record s { heap = λ b. if b == a then e else s.heap b }

-- The eviction of the oldest conversation.
unfoldable pub evict : List Str → Store → Store
evict [] s = s
evict (oldest ∷ rest) s = record s { conv = delete_slot oldest s.conv; order = rest }

unfoldable pub trim_store : Store → Store
trim_store s = if ltb store_max (length s.order) then evict s.order s else s

unfoldable pub add_entry : Str → Store → Store
add_entry key s =
    let t = set_entry s.free new_entry s in
    trim_store (record t {
      conv = record { key = key; address = s.free } ∷ s.conv;
      order = s.order ++ (key ∷ []);
      free = s.free + 1;
    })

-- entry: the pointer, and the store.
pub record Pointed : Type 0 where
  pub address : ℕ
  pub store : Store

unfoldable pub entry : Str → Store → Pointed
entry key s = elim (find_slot s.conv key) [
  | some a ↦ record { address = a; store = s }
  | none ↦ record { address = s.free; store = add_entry key s }
]

-- observe; a usage counts as its total `n`.
unfoldable pub observe : Str → ℕ → Store → Store
observe key n s =
    let p = entry key s in
    let e = p.store.heap p.address in
    if is_blank key
    then s
    else set_entry p.address (record e { last_ctx = n; observed = true }) p.store

-- What a request hears at the end of the first locked section; `ask` goes on to the classifier.
pub data Reply : Type 0 where
  clear_now wait : Reply
  refused : Verdict → Str → Reply
  ask : ℕ → Reply

pub record Gated : Type 0 where
  pub reply : Reply
  pub store : Store

-- `!e.observed || e.lastCtx < trigger || eligible < at_least`
unfoldable pub too_early : ℕ → ℕ → ℕ → Entry → Bool
too_early trigger at_least eligible e =
    not e.observed || (ltb e.last_ctx trigger || ltb eligible at_least)

unfoldable pub open_gate : ℕ → ℕ → ℕ → ℕ → Entry → Verdict → Store → Gated
open_gate trigger at_least eligible a e clear s = record { reply = clear_now; store = s }
open_gate trigger at_least eligible a e keep_results s = record {
  reply = refused keep_results e.reason;
  store = s;
}
open_gate trigger at_least eligible a e failed s = record {
  reply = refused failed e.reason;
  store = s;
}
open_gate trigger at_least eligible a e asking s = record { reply = wait; store = s }
open_gate trigger at_least eligible a e undecided s =
    if too_early trigger at_least eligible e
    then record { reply = wait; store = s }
    else (let t = set_entry a (record e { decision = asking }) s in
        record { reply = ask a; store = record t { pending = a ∷ s.pending } })

-- The first locked section of gate, for a key that is not blank.
unfoldable pub enter_gate : ℕ → ℕ → ℕ → Str → Store → Gated
enter_gate trigger at_least eligible key s =
    let p = entry key s in
    let e = p.store.heap p.address in
    open_gate trigger at_least eligible p.address e e.decision p.store

-- The second locked section: the answer is written through the pointer.
unfoldable pub leave_gate : ℕ → Verdict → Str → Store → Store
leave_gate a verdict reason s =
    let e = s.heap a in set_entry a (record e { decision = verdict; reason = reason }) s

-- What askClearGate may return.
abbrev pub is_answer : Verdict → Bool
is_answer undecided = false
is_answer asking = false
is_answer _ = true

-- One locked section of some request; a request that leaves holds one of the pending addresses.
pub data Step (s : Store) : Store → Type 0 where
  observes : (key : Str) (n : ℕ) → Step s (observe key n s)
  enters :
      (trigger at_least eligible : ℕ) (key : Str)
      → Step s (enter_gate trigger at_least eligible key s).store
  leaves :
      (front back : List ℕ) (a : ℕ) (verdict : Verdict) (reason : Str)
      → s.pending ≡ front ++ (a ∷ back)
      → is_answer verdict ≡ true
      → Step s (leave_gate a verdict reason (record s { pending = front ++ back }))

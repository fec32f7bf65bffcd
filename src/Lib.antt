-- ===== src/Lib.antt =====
-- A verification library of jev-routing, a proxy between a coding agent (Claude Code, Codex,
-- Grok, Devin) and its model provider. The proxy reads a request, asks a small classifier which
-- tools and which parts of the history matter, and forwards a smaller request.
--
-- A Go function is a function of the same name in snake_case. State that a method mutates is a
-- record that is passed in and returned. A loop is structural recursion. Seven loops run on fuel:
-- the lines of a stream on one more than the bytes of the buffer; the field parser on the length
-- of the body and the splitting of a request into words on the length of the text, since each
-- round takes a byte; the stripping of reminders on the length of the text, since each match is
-- longer than a byte; the varint encoder on ten rounds, since a uint64 has ten groups of seven
-- bits; the printing of a number on nineteen digits, which an int has at most; and the binary
-- search of shrinkAny on one round more than the characters. A call that can panic has a result
-- in Go A, which has no value then. A slice of bytes and a string are lists of numbers, a uint64
-- is a number with its wrap-around written out, and a score is a number of millionths.
--
-- The files, with the code they are about:
--
-- - Host, Host/Arguments: internal/host/host.go. An ID that is none of the constants is the
--   constructor other; strconv.Quote is a parameter.
-- - Plan, Plan/Request, Plan/Goals, Plan/Scoring, Plan/Decide: internal/plan/plan.go. The order
--   in which Go visits a map is a parameter, confidences are in ten-thousandths and scores in
--   halves. The regular expressions are written out as searches; the reminders are stripped on
--   the length of the text as fuel, since each match is longer than a byte, and words are cut the
--   same way.
-- - Plan/Catalog, Plan/Build: internal/plan/capability.go. Plan/Route: internal/plan/routing.go;
--   the digests of sha256 are parameters, and Route calls DecideSpecs on the eligible items.
--   Plan/Subagent: internal/plan/subagent.go. Plan/Fresh, Plan/Unique, Plan/Selected and the
--   children of Plan/Subagent hold proofs.
-- - Gate: internal/proxy/clear_gate.go. Each section under the lock is a function on the record
--   Store, the heap of entries and the addresses that requests hold while they ask are part of
--   it, and Step is one section of some request. Gate/Entries and Gate/Settled hold the proofs.
-- - Json: a decoded JSON value, which is what the handlers edit. Text/Runes: splitting a valid
--   UTF-8 string into characters, and truncateRunes and clipRunes.
-- - Steer, Steer/Turns, Steer/Turns/Limits, Steer/Decide: internal/proxy/codex_steer.go, from the
--   tools and turns of a request over the state that is sent to the classifier to the edit of
--   tool_choice. Steer/Names, Steer/Window, Steer/Untouched and Steer/Again hold the proofs.
-- - Events: internal/proxy/events.go. Each method holds the lock, so it is a function from Log to
--   Log. Events/Spec is the abstract view, an unbounded history; Events/Refine relates the two,
--   and Events/Polling and Events/Tally are about the readers.
-- - Output: internal/proxy/codex_tool_output.go. The request that applyCodexToolOutputMax mutates
--   goes through the walk as a value, with the two counts. Text/Utf8 is utf8.ValidString.
--   Output/Cuts and Output/Local hold the proofs.
-- - Stream: the loop over the lines of a stream of events that internal/proxy/usage.go and
--   internal/proxy/context_edit.go share; the record Collector says what a line does, and Usage
--   and Clears fill it. It runs on one round more than the bytes of the buffer, since each round
--   takes a line. Stream/Chunks and Stream/Writes hold the proofs.
-- - Usage: internal/proxy/usage.go but for Connect responses. A count is the whole part of a
--   decimal that a float64 holds.
-- - Clears, Clears/Collect: internal/proxy/context_edit.go. Clears/Once is about the edit and its
--   header, Clears/Reports about the collector.
-- - Plan/Batch: internal/plan/batch.go, RouteBatch on top of Route; Plan/Batch/Items is about
--   what each item gets.
-- - Gate/Request: what the gate reads in a request, up to its first locked section; Gate/Runs is
--   about any number of sections.
-- - Compact/Local: the rest of internal/compact/compact.go, the questions to the classifier and
--   the compaction without it.
-- - Ask: internal/jev/jev.go. Ask validates answers; Ask/Shrink fits an input into the budget,
--   where the references of collectShrinkStrings are the strings in their order, and the binary
--   search runs on one round more than the characters, since each round narrows the range;
--   Ask/Cache is doAsk, with encoding/json, sha256 and the transport in the record World, between
--   two states of the client; Ask/Compaction is AskCompactContext, which composes them with
--   Compact.
-- - Compact/Tokens, Compact/Fitted, Compact/Batches: EstimateTokens of
--   internal/compact/compact.go, and internal/compact/state.go. A row is a record, and a key that
--   it lacks is `none`.
-- - Tools: the catalog part of internal/proxy/rewrite.go, on decoded JSON values. Tools says what
--   a tool is called and which are sticky; Tools/Narrow is filterTools, keepLocatePair and
--   reconstructCatalog as RewriteWith calls them; Tools/History and Tools/Eligible are
--   inspectRequest, whose lists of history types are only reported and left out; Tools/Written is
--   setTools and the members that RewriteWith deletes. Tools/Rebuilt, Tools/Chosen,
--   Tools/Narrowed, Tools/Kept and Tools/Distinct have the proofs.
-- - Prelude and its children: shared lists, tests, outcomes and signed numbers; Text: package
--   strings on byte lists.
-- - Wire/Varint, Wire/Fields, Wire/Edit: internal/proxy/proto_observe.go (protoVarint,
--   protoEncodeVarint, protoTagAndBytes) and internal/proxy/connect_proto.go (parseProtoFields,
--   firstLD, the replace functions). The parser is the base of the editors, which rewrite the
--   tool list and texts of a Devin request.
-- - Wire/Frame: the Connect envelopes of internal/proxy/connect_proto.go. The state that
--   emitConnectFrame keeps between calls is the record Emitter. Wire/Frame/Stream says what a
--   reader is to get, and Wire/Frame/Drained is about one that calls until io.EOF.
-- - Compact, Compact/Candidates, Compact/Apply: internal/compact/compact.go, from the collection
--   of candidates to the compacted history. The lengths and token limits of Options are not
--   negative, the head is below 2^63 - 120, as TruncateBody adds 120 to it (the program itself
--   leaves all of them at their defaults), and scores are compared only. The other files of
--   Compact hold the proofs.
-- - Tests: runs on concrete inputs.
--
-- Not modelled: HTTP, files, processes and clocks; encoding/json, regexp, sha256 and the
-- classifier itself, which the code only calls; the benchmark and the dashboard; and the rest of
-- internal/proxy/rewrite.go (the question for the next tool, the hints, the compaction of
-- messages) and native_compact.go, which work on decoded JSON in many forms. A Connect response
-- is not searched for its usage. ToLower and TrimSpace act on ASCII characters only, so a request
-- with other capital letters is lowered less than the program lowers it.
pub mod Prelude
pub mod Text
pub mod Wire
pub mod Compact
pub mod Json
pub mod Host
pub mod Plan
pub mod Gate
pub mod Steer
pub mod Events
pub mod Output
pub mod Stream
pub mod Usage
pub mod Clears
pub mod Ask
pub mod Tools
pub mod Tests

-- ===== src/Ask/Cache.antt =====
-- The requests to the classifier and the cache of its responses, internal/jev/jev.go. A request
-- happens between two states of the client; the locks of the source guard each of the two accesses
-- to the map.
pub mod Kept
pub mod Again
use jev_routing.Prelude.{
  ℕ, Bool, true, false, not, ◌&&◌, Option, none, some, List, [], ◌∷◌, leb, if◌then◌else◌, length,
  String,
}
use jev_routing.Text.{Str, lit, str_eq, is_blank}
use jev_routing.Json.{Json}
use jev_routing.Ask.Shrink.{Marshaller, FittedInput, fit_input_copy}
use jev_routing.Ask.{Float, AskQuestion, AskUsage, Response, Decoder, answers_valid}

-- What the key of a response is made from, and the body of a request.
pub record Payload : Type 0 where
  pub purpose : Str
  pub state : Json
  pub questions : List AskQuestion
  pub model : Str
  pub url : Str

-- One entry of `askCache`.
pub record CachedResponse : Type 0 where
  pub key : Str
  pub response : Response

-- One entry of a map from question IDs to validated scores.
pub record NoulScore : Type 0 where
  pub id : Str
  pub score : Float

-- One entry of `decided`.
pub record DecidedAnswers : Type 0 where
  pub key : Str
  pub scores : List NoulScore

pub record Client : Type 0 where
  pub api_key : Str
  pub base_url : Str
  pub model : Str
  pub decided : List DecidedAnswers
  pub ask_cache : List CachedResponse

pub data ErrKind : Type 0 where
  no_kind canceled deadline network http decode : ErrKind

-- An Attempt without its times.
pub record Attempt : Type 0 where
  pub purpose : Str
  pub ok : Bool
  pub cached : Bool
  pub status : ℕ
  pub err_kind : ErrKind
  pub usage : Option AskUsage
  pub questions : ℕ

-- The reasons for which doAsk returns an error.
pub data AskError : Type 0 where
  no_api_key over_budget bad_request : AskError
  failed : ErrKind → AskError

pub data AskResult : Type 0 where
  answered : Response → AskResult
  refused : AskError → AskResult

-- The result of doAsk, the attempts that its hook got, and the client after it.
pub record AskOutcome : Type 0 where
  pub result : AskResult
  pub attempts : List Attempt
  pub client : Client

-- What the context says when a call has failed.
pub data Context : Type 0 where
  alive cancelled expired : Context

-- errKind
unfoldable pub err_kind : Context → ErrKind
err_kind cancelled = canceled
err_kind expired = deadline
err_kind alive = network

-- What the transport gives: no response, or a status and a body.
pub data Reply : Type 0 where
  no_reply : Context → Reply
  reply : ℕ → Str → Reply

-- The libraries that doAsk calls. `digest` is sha256 in hexadecimal digits, and `body` is `none` where
-- json.Marshal or http.NewRequestWithContext fails.
pub record World : Type 0 where
  pub decoder : Decoder
  pub marshal_payload : Payload → Option Str
  pub digest : Str → Str
  pub marshaller : Marshaller
  pub body : Client → Json → List AskQuestion → Option Str
  pub send : Client → Str → Reply

-- Live of a client that is not nil
unfoldable pub is_live : Client → Bool
is_live c = not (is_blank c.api_key)

abbrev pub payload : Client → Str → Json → List AskQuestion → Payload
payload c purpose state questions = record {
  purpose = purpose;
  state = state;
  questions = questions;
  model = c.model;
  url = c.base_url;
}

-- fingerprint
unfoldable pub fingerprint : World → Payload → Str
fingerprint w p = elim (w.marshal_payload p) [ none ↦ [] | some b ↦ w.digest b ]

-- askKey
unfoldable pub ask_key : World → Client → Str → Json → List AskQuestion → Str
ask_key w c purpose state questions = fingerprint w (payload c purpose state questions)

-- `c.askCache[key]`
unfoldable pub cached_at : Str → List CachedResponse → Option Response
cached_at key [] = none
cached_at key (e ∷ es) = if str_eq e.key key then some e.response else cached_at key es

-- `c.askCache[key] = &cp`
unfoldable pub put_cached : Str → Response → List CachedResponse → List CachedResponse
put_cached key r [] = record { key = key; response = r } ∷ []
put_cached key r (e ∷ es) =
    if str_eq e.key key then record { key = key; response = r } ∷ es else e ∷ put_cached key r es

-- lookup_cached, without the attempt that it reports
unfoldable pub lookup_cached : World → Client → Str → Json → List AskQuestion → Option Response
lookup_cached w c purpose state questions =
    cached_at (ask_key w c purpose state questions) c.ask_cache

-- storeValid
unfoldable pub store_valid : World → Client → Str → Json → List AskQuestion → Response → Client
store_valid w c purpose state questions r =
    if answers_valid w.decoder r questions
    then record c { ask_cache = put_cached (ask_key w c purpose state questions) r c.ask_cache }
    else c

abbrev pub attempt : Str → List AskQuestion → ℕ → ErrKind → Attempt
attempt purpose questions status kind = record {
  purpose = purpose;
  ok = false;
  cached = false;
  status = status;
  err_kind = kind;
  usage = none;
  questions = length questions;
}

unfoldable pub cached_attempt : Str → List AskQuestion → Attempt
cached_attempt purpose questions = record (attempt purpose questions 0 no_kind) {
  ok = true;
  cached = true;
}

abbrev pub give_back : AskError → List Attempt → Client → AskOutcome
give_back e attempts c = record { result = refused e; attempts = attempts; client = c }

module _ (w : World) (c : Client) (purpose : Str) (state : Json) (questions : List AskQuestion)
    (use_cache : Bool) where
  -- After the body of a response with a status below 300 was decoded.
  unfoldable pub take_decoded : ℕ → Option Response → AskOutcome
  take_decoded status none =
      give_back (failed decode) (attempt purpose questions status decode ∷ []) c
  take_decoded status (some r) = record {
    result = answered r;
    attempts =
        record (attempt purpose questions status no_kind) { ok = true; usage = r.usage } ∷ [];
    client = if use_cache then store_valid w c purpose state questions r else c;
  }

  unfoldable pub take_reply : Reply → AskOutcome
  take_reply (no_reply ctx) =
      give_back (failed (err_kind ctx)) (attempt purpose questions 0 (err_kind ctx) ∷ []) c
  take_reply (reply status raw) =
      if leb 300 status
      then give_back (failed http) (attempt purpose questions status http ∷ []) c
      else take_decoded status (w.decoder.response raw)

  unfoldable pub send_body : Option Str → AskOutcome
  send_body none = give_back bad_request [] c
  send_body (some b) = take_reply (w.send c b)

  unfoldable pub send_fitted : FittedInput → AskOutcome
  send_fitted f =
      if f.over then give_back over_budget [] c else send_body (w.body c f.state questions)

  unfoldable pub take_cached : Option Response → AskOutcome
  take_cached (some r) = record {
    result = answered r;
    attempts = cached_attempt purpose questions ∷ [];
    client = c;
  }
  take_cached none = send_fitted (fit_input_copy w.marshaller questions state)

  -- doAsk
  unfoldable pub do_ask : AskOutcome
  do_ask =
      if is_live c
      then take_cached (if use_cache then lookup_cached w c purpose state questions else none)
      else give_back no_api_key [] c

-- AskContext and AskSelectionContext
unfoldable pub ask_context : World → Client → Json → List AskQuestion → AskOutcome
ask_context w c state questions = do_ask w c (lit "ask") state questions true

unfoldable pub ask_selection : World → Client → Json → List AskQuestion → AskOutcome
ask_selection w c state questions = do_ask w c (lit "selection") state questions true

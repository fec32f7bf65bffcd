-- ===== src/Ask/Cache/Kept.antt =====
-- What doAsk returns, reports and keeps.
use jev_routing.Prelude.{
  ℕ, ◌≤◌, ◌≡◌, refl, inl, inr, Bool, true, false, Option, none, some, List, [], ◌∷◌, leb,
  if◌then◌else◌, length, All, Bool-cases, arith,
}
use jev_routing.Text.{Str, str_eq}
use jev_routing.Text.Laws.{str_eq_refl}
use jev_routing.Json.{Json}
use jev_routing.Ask.{AskQuestion, Response, answers_valid}
use jev_routing.Ask.Shrink.{FittedInput, fit_input_copy}
use jev_routing.Ask.Cache.{
  Payload, CachedResponse, Client, Attempt, AskResult, answered, refused, AskOutcome, Reply,
  no_reply, AskError, give_back, reply, World, is_live, payload, fingerprint, ask_key, cached_at,
  put_cached, store_valid, cached_attempt, take_decoded, take_reply, send_body, send_fitted,
  take_cached, do_ask,
}

pub cached_at-put_cached :
    (key : Str) (r : Response) (es : List CachedResponse)
    → cached_at key (put_cached key r es) ≡ some r
unfolding cached_at put_cached
cached_at-put_cached key r [] = rw (str_eq_refl key)
cached_at-put_cached key r (e ∷ es) = elim (Bool-cases (str_eq e.key key)) [
  | inl here ↦ rw here (rw (cached_at, str_eq_refl key))
  | inr later ↦ rw later (rw (cached_at, later) (cached_at-put_cached key r es))
]

module _ (w : World) where
  -- The entry holds a response with a valid answer to each question under its key.
  pub record IsGenuine (e : CachedResponse) : Type 0 where
    pub from : Payload
    pub keyed : e.key ≡ fingerprint w from
    pub valid : answers_valid w.decoder e.response from.questions ≡ true

  put_cached-IsGenuine :
      (p : Payload) (r : Response) (es : List CachedResponse)
      → answers_valid w.decoder r p.questions ≡ true
      → All IsGenuine es
      → All IsGenuine (put_cached (fingerprint w p) r es)
  unfolding put_cached
  put_cached-IsGenuine p r [] v a = (record { from = p; keyed = refl; valid = v }, tt)
  put_cached-IsGenuine p r (e ∷ es) v (g, a) = elim (Bool-cases (str_eq e.key (fingerprint w p))) [
    | inl here ↦ rw here (record { from = p; keyed = refl; valid = v }, a)
    | inr later ↦ rw later (g, put_cached-IsGenuine p r es v a)
  ]

  store_valid-IsGenuine :
      (c : Client) (purpose : Str) (state : Json) (questions : List AskQuestion) (r : Response)
      → All IsGenuine c.ask_cache
      → All IsGenuine (store_valid w c purpose state questions r).ask_cache
  unfolding store_valid ask_key
  store_valid-IsGenuine c purpose state questions r a =
      elim (Bool-cases (answers_valid w.decoder r questions)) [
        | inl valid ↦
            rw valid
              (put_cached-IsGenuine (payload c purpose state questions) r c.ask_cache valid a)
        | inr not_valid ↦ rw not_valid a
      ]

  -- An answer comes with one attempt, which is reported as a success; an error leaves the client as it
  -- was, and at most one attempt is reported, as a failure.
  unfoldable pub ReportsAs : Client → AskResult → List Attempt → Client → Type 0
  ReportsAs c (answered r) attempts d = (a : Attempt) × (attempts ≡ a ∷ []) × (a.ok ≡ true)
  ReportsAs c (refused e) attempts d =
      (d ≡ c) × (length attempts ≤ 1) × All (λ (a : Attempt). a.ok ≡ false) attempts

  -- The call has reported what it did, and all entries of the cache are genuine.
  unfoldable pub IsKept : Client → AskOutcome → Type 0
  IsKept c a = ReportsAs c a.result a.attempts a.client × All IsGenuine a.client.ask_cache

  if-IsKept :
      (c : Client) (b : Bool) (x y : AskOutcome)
      → IsKept c x
      → IsKept c y
      → IsKept c (if b then x else y)
  if-IsKept c true x y f g = f
  if-IsKept c false x y f g = g

  module _ (c : Client) (purpose : Str) (state : Json) (questions : List AskQuestion)
      (use_cache : Bool) (genuine : All IsGenuine c.ask_cache) where
    failed-IsKept :
        (e : AskError) (attempts : List Attempt)
        → length attempts ≤ 1
        → All (λ (a : Attempt). a.ok ≡ false) attempts
        → IsKept c (give_back e attempts c)
    unfolding IsKept ReportsAs
    failed-IsKept e attempts short a = ((refl, short, a), genuine)

    stored-IsGenuine :
        (b : Bool) (r : Response)
        → All IsGenuine (if b then store_valid w c purpose state questions r else c).ask_cache
    stored-IsGenuine true r = store_valid-IsGenuine c purpose state questions r genuine
    stored-IsGenuine false r = genuine

    take_decoded-IsKept :
        (status : ℕ) (r : Option Response)
        → IsKept c (take_decoded w c purpose state questions use_cache status r)
    unfolding take_decoded IsKept ReportsAs
    take_decoded-IsKept status none = ((refl, omega arith, (refl, tt)), genuine)
    take_decoded-IsKept status (some r) = ((_, refl, refl), stored-IsGenuine use_cache r)

    take_reply-IsKept : (r : Reply) → IsKept c (take_reply w c purpose state questions use_cache r)
    unfolding take_reply
    take_reply-IsKept (no_reply ctx) = failed-IsKept _ _ (omega arith) (refl, tt)
    take_reply-IsKept (reply status raw) =
        if-IsKept c (leb 300 status) _ _ (failed-IsKept _ _ (omega arith) (refl, tt))
          (take_decoded-IsKept status (w.decoder.response raw))

    send_body-IsKept :
        (b : Option Str) → IsKept c (send_body w c purpose state questions use_cache b)
    unfolding send_body
    send_body-IsKept none = failed-IsKept _ _ (omega arith) tt
    send_body-IsKept (some b) = take_reply-IsKept (w.send c b)

    send_fitted-IsKept :
        (f : FittedInput) → IsKept c (send_fitted w c purpose state questions use_cache f)
    unfolding send_fitted
    send_fitted-IsKept f =
        if-IsKept c f.over _ _ (failed-IsKept _ _ (omega arith) tt)
          (send_body-IsKept (w.body c f.state questions))

    take_cached-IsKept :
        (r : Option Response) → IsKept c (take_cached w c purpose state questions use_cache r)
    unfolding take_cached IsKept ReportsAs cached_attempt
    take_cached-IsKept (some r) = ((_, refl, refl), genuine)
    take_cached-IsKept none = send_fitted-IsKept (fit_input_copy w.marshaller questions state)

    -- An answer of doAsk is reported by one successful attempt, and an error by at most one, a failed
    -- one, and it leaves the client as it was; where every response of the cache has a valid answer to
    -- each question of its key, this is so afterwards.
    pub do_ask-IsKept : IsKept c (do_ask w c purpose state questions use_cache)
    unfolding do_ask
    do_ask-IsKept =
        if-IsKept c (is_live c) _ _ (take_cached-IsKept _) (failed-IsKept _ _ (omega arith) tt)

-- ===== src/Ask/Cache/Again.antt =====
-- The same questions asked twice.
use jev_routing.Prelude.{
  ℕ, ◌≡◌, refl, ◌∙◌, inl, inr, Bool, true, false, Option, none, some, List, [], ◌∷◌, leb,
  if◌then◌else◌, Bool-cases,
}
use jev_routing.Text.{Str}
use jev_routing.Json.{Json}
use jev_routing.Ask.{AskQuestion, Response, answers_valid}
use jev_routing.Ask.Shrink.{FittedInput, fit_input_copy}
use jev_routing.Ask.Cache.{
  Client, answered, refused, AskOutcome, Reply, no_reply, reply, AskError, give_back, Attempt,
  World, is_live, fingerprint, ask_key, lookup_cached, store_valid, cached_attempt, take_decoded,
  take_reply, send_body, send_fitted, take_cached, do_ask,
}
use jev_routing.Ask.Cache.Kept.{cached_at-put_cached}

module _ (w : World) (c : Client) (purpose : Str) (state : Json) (questions : List AskQuestion)
    (r : Response) (valid : answers_valid w.decoder r questions ≡ true) where
  -- If the result is this response, the client finds it when it is asked again.
  unfoldable Remembers : AskOutcome → Type 0
  Remembers a =
      a.result ≡ answered r
      → (lookup_cached w a.client purpose state questions ≡ some r) × (is_live a.client ≡ is_live c)

  if-Remembers :
      (b : Bool) (x y : AskOutcome) → Remembers x → Remembers y → Remembers (if b then x else y)
  if-Remembers true x y f g = f
  if-Remembers false x y f g = g

  failed-Remembers : (e : AskError) (attempts : List Attempt) → Remembers (give_back e attempts c)
  unfolding Remembers
  failed-Remembers e attempts h = cc

  stored-Remembers :
      (s : Response)
      → s ≡ r
      → (lookup_cached w (store_valid w c purpose state questions s) purpose state questions
          ≡ some r)
        × (is_live (store_valid w c purpose state questions s) ≡ is_live c)
  unfolding store_valid lookup_cached ask_key is_live
  stored-Remembers s e = rw e (rw valid (cached_at-put_cached _ r c.ask_cache, refl))

  take_decoded-Remembers :
      (status : ℕ) (s : Option Response)
      → Remembers (take_decoded w c purpose state questions true status s)
  unfolding take_decoded Remembers
  take_decoded-Remembers status none h = cc
  take_decoded-Remembers status (some s) h = stored-Remembers s cc

  take_reply-Remembers : (p : Reply) → Remembers (take_reply w c purpose state questions true p)
  unfolding take_reply
  take_reply-Remembers (no_reply ctx) = failed-Remembers _ _
  take_reply-Remembers (reply status raw) =
      if-Remembers (leb 300 status) _ _ (failed-Remembers _ _)
        (take_decoded-Remembers status (w.decoder.response raw))

  send_body-Remembers : (b : Option Str) → Remembers (send_body w c purpose state questions true b)
  unfolding send_body
  send_body-Remembers none = failed-Remembers _ _
  send_body-Remembers (some b) = take_reply-Remembers (w.send c b)

  send_fitted-Remembers :
      (f : FittedInput) → Remembers (send_fitted w c purpose state questions true f)
  unfolding send_fitted
  send_fitted-Remembers f =
      if-Remembers f.over _ _ (failed-Remembers _ _)
        (send_body-Remembers (w.body c f.state questions))

  hit-Remembers :
      (s : Response)
      → lookup_cached w c purpose state questions ≡ some s
      → Remembers (take_cached w c purpose state questions true (some s))
  unfolding take_cached Remembers
  hit-Remembers s e h = let same : s ≡ r = cc in (rw same at e, refl)

  take_cached-Remembers :
      (s : Option Response)
      → lookup_cached w c purpose state questions ≡ s
      → Remembers (take_cached w c purpose state questions true s)
  unfolding take_cached
  take_cached-Remembers (some s) e = hit-Remembers s e
  take_cached-Remembers none e = send_fitted-Remembers (fit_input_copy w.marshaller questions state)

  do_ask-Remembers : Remembers (do_ask w c purpose state questions true)
  unfolding do_ask
  do_ask-Remembers =
      if-Remembers (is_live c) _ _ (take_cached-Remembers _ refl) (failed-Remembers _ _)

  answered-is_live :
      (do_ask w c purpose state questions true).result ≡ answered r → is_live c ≡ true
  unfolding do_ask
  answered-is_live h = elim (Bool-cases (is_live c)) [
    | inl live ↦ live
    | inr dead ↦ absurd (no_answer (rw dead at h))
  ]
    where
      no_answer : {e : AskError} → refused e ≡ answered r → ⊥
      no_answer h = cc

  remembered :
      (do_ask w c purpose state questions true).result ≡ answered r
      → let after = (do_ask w c purpose state questions true).client in
        (lookup_cached w after purpose state questions ≡ some r) × (is_live after ≡ true)
  unfolding Remembers
  remembered h = let (found, same) = do_ask-Remembers h in (found, same ∙ answered-is_live h)

lookup_cached-send :
    (w : World) (c : Client) (purpose : Str) (state : Json) (questions : List AskQuestion)
    (send : Client → Str → Reply)
    → lookup_cached (record w { send = send }) c purpose state questions
      ≡ lookup_cached w c purpose state questions
unfolding lookup_cached ask_key fingerprint
lookup_cached-send w c purpose state questions send = refl

-- If doAsk has given a response with a valid answer to every question, then asked the same again, it
-- gives this response from the cache, reports that, leaves the client as it is and does not depend on
-- what the transport would give.
pub do_ask-again :
    (w : World) (c : Client) (purpose : Str) (state : Json) (questions : List AskQuestion)
    (r : Response)
    → answers_valid w.decoder r questions ≡ true
    → (do_ask w c purpose state questions true).result ≡ answered r
    → (send : Client → Str → Reply)
    → let after = (do_ask w c purpose state questions true).client in
      do_ask (record w { send = send }) after purpose state questions true ≡ record {
        result = answered r;
        attempts = cached_attempt purpose questions ∷ [];
        client = after;
      }
unfolding do_ask take_cached
do_ask-again w c purpose state questions r valid h send =
    let after = (do_ask w c purpose state questions true).client in
    let (found, live) = remembered w c purpose state questions r valid h in
    let again = lookup_cached-send w after purpose state questions send ∙ found in
    rw (live, again) refl

-- ===== src/Kong/Adapter.antt =====
-- The adapter in front of Kong's admin API (src/adapters/kong.adapter.ts), with the helpers of
-- src/adapters/kong-utils.ts. The strategy of the Kong mode and the network are parameters: `Remote` holds
-- their answers.
use authentication_v.Base.{
  ℕ, zero, suc, ◌+◌, ◌-◌, Bool, true, false, ◌&&◌, ◌||◌, not, Option, none, some, String, str_eq,
  List, [], ◌∷◌, ltb, leb, ◌==◌, if◌then◌else◌,
}
use authentication_v.Kong.Types.{ConsumerSecret, Outcome, returned, threw}
use authentication_v.Kong.Fallback.{is_mismatch}

-- What the adapter reads of a `Response`; `parsed` is the validated body, or the failure of `json()`.
pub record Response (B : Type 0) : Type 0 where
  pub ok : Bool
  pub status : ℕ
  pub parsed : Outcome B

module _ {B : Type 0} where
  unfoldable pub is_success_response : Response B → Bool
  is_success_response r = r.ok && leb 200 r.status && ltb r.status 300

  unfoldable pub is_consumer_not_found : Response B → Bool
  is_consumer_not_found r = r.status == 404

-- `isInfrastructureError` of `KongApiError`.
unfoldable pub is_infrastructure_error : ℕ → Bool
is_infrastructure_error status =
    if leb 500 status && ltb status 600
    then true
    else status == 429 || status == 502 || status == 503 || status == 504

-- A field of the body that is missing is the empty text, which JavaScript takes for false as well.
abbrev is_missing : Option (Option String) → Bool
is_missing none = true
is_missing (some none) = true
is_missing (some (some id)) = str_eq id ""

abbrev is_incomplete : ConsumerSecret → Bool
is_incomplete secret =
    str_eq secret.id ""
    || str_eq secret.key ""
    || str_eq secret.secret ""
    || is_missing secret.consumer

-- The argument is the field `data` of the body.
unfoldable pub extract_consumer_secret : Option (List ConsumerSecret) → Option ConsumerSecret
extract_consumer_secret none = none
extract_consumer_secret (some []) = none
extract_consumer_secret (some (secret ∷ secrets)) =
    if is_incomplete secret then none else some secret

-- The strategy of the mode: whether `ensurePrerequisites` goes through, and how `resolveConsumerId` ends,
-- where there is one.
pub record ModeStrategy : Type 0 where
  pub is_ready : Bool
  pub resolve_consumer_id : Option (String → Outcome (Option String))

resolution : Outcome (Option String) → Outcome (Option String)
resolution (returned (some id)) = returned (if str_eq id "" then none else some id)
resolution (returned none) = returned none
resolution threw = threw

resolve_by : Option (String → Outcome (Option String)) → String → Outcome (Option String)
unfolding resolution
resolve_by none consumer_id = returned (some consumer_id)
resolve_by (some resolve) consumer_id = resolution (resolve consumer_id)

unfoldable pub resolved_id : ModeStrategy → String → Outcome (Option String)
unfolding resolve_by
resolved_id strategy consumer_id =
    if strategy.is_ready then resolve_by strategy.resolve_consumer_id consumer_id else threw

-- How an action ends, and the secret that it puts in the cache, if any.
abbrev pub Action : Type 0
Action = Option ConsumerSecret × Outcome (Option ConsumerSecret)

-- The last part of both actions: a secret of another consumer is returned, but not cached.
unfoldable pub keep_secret : String → Option ConsumerSecret → Action
keep_secret consumer_id none = (none, returned none)
keep_secret consumer_id (some secret) =
    if is_mismatch secret consumer_id
    then (none, returned (some secret))
    else (some secret, returned (some secret))

read_body : String → Outcome (Option (List ConsumerSecret)) → Action
unfolding keep_secret
read_body consumer_id threw = (none, threw)
read_body consumer_id (returned body) = keep_secret consumer_id (extract_consumer_secret body)

read_response : String → Outcome (Response (Option (List ConsumerSecret))) → Action
unfolding read_body is_success_response
read_response consumer_id threw = (none, threw)
read_response consumer_id (returned r) =
    if is_success_response r
    then read_body consumer_id r.parsed
    else if is_consumer_not_found r
    then (none, returned none)
    else (none, threw)

fetch_resolved :
    (String → Outcome (Response (Option (List ConsumerSecret))))
    → String
    → Outcome (Option String)
    → Action
unfolding read_response
fetch_resolved request consumer_id threw = (none, threw)
fetch_resolved request consumer_id (returned none) = (none, returned none)
fetch_resolved request consumer_id (returned (some id)) = read_response consumer_id (request id)

-- The action of `getConsumerSecret`; `request` stands for the retried GET of the consumer's credentials.
unfoldable pub fetch_secret :
    ModeStrategy → (String → Outcome (Response (Option (List ConsumerSecret)))) → String → Action
unfolding resolved_id fetch_resolved
fetch_secret strategy request consumer_id =
    fetch_resolved request consumer_id (resolved_id strategy consumer_id)

created_body : String → Outcome (Option ConsumerSecret) → Action
unfolding keep_secret
created_body consumer_id threw = (none, threw)
created_body consumer_id (returned created) = keep_secret consumer_id created

-- What one POST means for the loop; a status of 409 that is not a success is a collision of keys.
unfoldable pub is_collision : Outcome (Response (Option ConsumerSecret)) → Bool
is_collision threw = false
is_collision (returned r) =
    not (is_success_response r) && not (is_consumer_not_found r) && r.status == 409

unfoldable pub created_response : String → Outcome (Response (Option ConsumerSecret)) → Action
unfolding created_body is_success_response
created_response consumer_id threw = (none, threw)
created_response consumer_id (returned r) =
    if is_success_response r
    then created_body consumer_id r.parsed
    else if is_consumer_not_found r
    then (none, returned none)
    else (none, threw)

-- The loop of `createConsumerSecret`, from the attempt `attempt` on, with `left` more attempts after it;
-- also the number of the attempt that ended it.
unfoldable pub create_loop :
    (ℕ → Outcome (Response (Option ConsumerSecret))) → String → ℕ → ℕ → Action × ℕ
unfolding created_response is_collision
create_loop post consumer_id attempt zero = (created_response consumer_id (post attempt), attempt)
create_loop post consumer_id attempt (suc left) =
    let rest = create_loop post consumer_id (attempt + 1) left in
    if is_collision (post attempt)
    then rest
    else (created_response consumer_id (post attempt), attempt)

-- `maxRetries`
abbrev pub max_retries : ℕ
max_retries = 3

create_resolved :
    (String → ℕ → Outcome (Response (Option ConsumerSecret)))
    → String
    → Outcome (Option String)
    → Action
unfolding create_loop
create_resolved post consumer_id threw = (none, threw)
create_resolved post consumer_id (returned none) = (none, returned none)
create_resolved post consumer_id (returned (some id)) =
    (create_loop (post id) consumer_id 1 (max_retries - 1)).0

-- The action of `createConsumerSecret`; `post id attempt` is the answer to the POST of that attempt.
unfoldable pub create_secret :
    ModeStrategy → (String → ℕ → Outcome (Response (Option ConsumerSecret))) → String → Action
unfolding resolved_id create_resolved
create_secret strategy post consumer_id =
    create_resolved post consumer_id (resolved_id strategy consumer_id)

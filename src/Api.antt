-- ===== src/Api.antt =====
-- feature_store/src/api.py: the dependencies and the two feature endpoints. `now` is the second at
-- which Redis answers, `served_at` the text of the response's time.
pub mod Lookup
pub mod Batch
pub mod Health
pub mod App
use realtime_fraud_feature_s.Prelude.{
  ℕ, ◌+◌, ◌≡◌, Option, none, some, Bool, true, false, List, [], ◌∷◌, ◌++◌, map, Text, codes, length,
  text_eq, leb, Dict, Outcome, returned, raised, ◌>>=◌, if◌then◌else◌,
}
use realtime_fraud_feature_s.Python.{Json, Loaded, Runtime}
use realtime_fraud_feature_s.Redis.{Redis}

-- An `HTTPException`, or an exception that no handler takes, which the client sees as a 500.
pub data ApiError : Type 0 where
  http : ℕ → Text → ApiError
  unhandled : ApiError

abbrev pub dummy_api_key : Text
dummy_api_key = codes "sk_test_123"

-- `api_key_header` with `auto_error` refuses a request that has no such header or an empty one.
unfoldable pub get_api_key : Option Text → Outcome ApiError Text
get_api_key none = raised (http 403 (codes "Not authenticated"))
get_api_key (some []) = raised (http 403 (codes "Not authenticated"))
get_api_key (some (c ∷ cs)) =
    let api_key = c ∷ cs in
    if text_eq api_key dummy_api_key
    then returned api_key
    else raised (http 403 (codes "Invalid API Key. Access denied."))

-- f"user:features:{user_id}"
unfoldable pub feature_key : Text → Text
feature_key user_id = codes "user:features:" ++ user_id

-- The global `redis_client`, `none` before the lifespan has set it.
unfoldable pub get_redis {ℓ} : {C : Type ℓ} → Option C → Outcome ApiError C
get_redis none = raised (http 500 (codes "Redis client not initialized"))
get_redis (some client) = returned client

module _ (rt : Runtime) where
  abbrev pub Features : Type 0
  Features = Dict (Json rt.Float)

  pub record FeatureResponse : Type 0 where
    pub user_id : Text
    pub features : Features
    pub served_at : Text

  -- `{"user_id": ..., "features": ...}` of a batch, with any JSON
  pub record Found : Type 0 where
    pub user_id : Text
    pub features : Loaded rt.Float

  pub record BatchResponse : Type 0 where
    pub results : List Found
    pub requested : ℕ
    pub found : ℕ
    pub missing : ℕ
    pub missing_ids : List Text
    pub served_at : Text

  -- json.loads(raw) for `features: dict`: the exceptions of json and, for JSON that is not an
  -- object, of `FeatureResponse` are not handled.
  unfoldable pub parse : Text → Outcome ApiError Features
  parse raw = elim (rt.loads raw) [ none ↦ raised unhandled | some o ↦ returned o ]

  unfoldable pub answer : Text → Text → Option Text → Outcome ApiError FeatureResponse
  unfolding parse
  answer served_at user_id none =
      raised (http 404 (codes "No features found for user '" ++ (user_id ++ codes "'.")))
  answer served_at user_id (some raw) = do
    features ← parse raw
    returned (record { user_id = user_id; features = features; served_at = served_at })

  -- The loop over `zip(request.user_ids, results)`, with its two lists.
  unfoldable pub batch_loop :
      List Text
      → List (Option Text)
      → List Found
      → List Text
      → Outcome ApiError (List Found × List Text)
  unfolding parse
  batch_loop [] results found missing = returned (found, missing)
  batch_loop (user_id ∷ ids) [] found missing = returned (found, missing)
  batch_loop (user_id ∷ ids) (none ∷ results) found missing =
      batch_loop ids results found (missing ++ user_id ∷ [])
  batch_loop (user_id ∷ ids) (some raw ∷ results) found missing = elim (rt.loads_any raw) [
    | none ↦ raised unhandled
    | some v ↦
        batch_loop ids results (found ++ record { user_id = user_id; features = v } ∷ []) missing
  ]

  -- The response that the handler builds of its two lists.
  abbrev pub summary : List Text → Text → List Found × List Text → BatchResponse
  summary user_ids served_at (found, missing) = record {
    results = found;
    requested = length user_ids;
    found = length found;
    missing = length missing;
    missing_ids = missing;
    served_at = served_at;
  }

  -- A client whose calls raise `ConnectionError` while the server cannot be reached.
  module _ (r : Redis) where
    pub record Client : Type 0 where
      pub store : r.Store
      pub reachable : Bool

    abbrev pub connected {ℓ} : {A : Type ℓ} → Client → A → Outcome ApiError A
    connected client a = if client.reachable then returned a else raised unhandled

    unfoldable pub get_user_features :
        ℕ → Text → Text → Option Text → Option Client → Outcome ApiError FeatureResponse
    unfolding get_api_key get_redis answer feature_key
    get_user_features now served_at user_id header redis_client = do
      api_key ← get_api_key header
      client ← get_redis redis_client
      raw ← connected client (r.get now client.store (feature_key user_id))
      answer served_at user_id raw

    -- `BatchRequest` refuses more than 100 user ids.
    unfoldable pub get_batch_features :
        ℕ → Text → List Text → Option Text → Option Client → Outcome ApiError BatchResponse
    unfolding get_api_key get_redis batch_loop feature_key
    get_batch_features now served_at user_ids header redis_client = do
      api_key ← get_api_key header
      client ← get_redis redis_client
      valid ←
          if leb (length user_ids) 100
          then returned user_ids
          else raised (http 422 (codes "List should have at most 100 items after validation"))
      results ← connected client (r.mget now client.store (map feature_key valid))
      lists ← batch_loop valid results [] []
      returned (summary user_ids served_at lists)

-- ===== src/Api/App.antt =====
-- feature_store/src/api.py as an application: its routes, the middleware, and the lifespan that sets
-- the global `redis_client`. FastAPI's handlers of exceptions are the parameter `FastApi`.
pub mod Access
pub mod Lifespan
use realtime_fraud_feature_s.Prelude.{
  ℕ, ◌≡◌, Option, none, some, Bool, true, false, List, [], ◌∷◌, ◌++◌, Text, codes, Dict, put,
  Outcome, returned, raised, ◌>>=◌, if◌then◌else◌,
}
use realtime_fraud_feature_s.Python.{Runtime, DateTime}
use realtime_fraud_feature_s.Redis.{Redis}
use realtime_fraud_feature_s.Settings.{RedisConnection}
use realtime_fraud_feature_s.Api.{
  ApiError, http, unhandled, FeatureResponse, BatchResponse, Client, get_user_features,
  get_batch_features,
}
use realtime_fraud_feature_s.Api.Health.{
  Hours, HealthResponse, HealthReply, unavailable, report, health_check,
}

-- The three routes, with what the path or the body of a request gives them.
pub data Route : Type 0 where
  user : Text → Route
  batch : List Text → Route
  health : Route

-- A route of `v1_router`, which needs the API key.
abbrev pub is_v1 : Route → Bool
is_v1 (user user_id) = true
is_v1 (batch user_ids) = true
is_v1 health = false

-- The global `redis_client`.
pub record App : Type 0 where
  pub redis_client : Option RedisConnection

-- The module's state before the lifespan.
abbrev pub imported : App
imported = record { redis_client = none }

abbrev pub process_time_header : Text
process_time_header = codes "X-Process-Time-Ms"

module _ (rt : Runtime) (r : Redis) where
  -- The moment of a request: the clocks, the middleware's text of the time that it took, and the
  -- server that a connection reaches, if it does.
  pub record Moment : Type 0 where
    pub second : ℕ
    pub now : DateTime
    pub served_at : Text
    pub process_time : Text
    pub server : RedisConnection → Client rt r

  abbrev pub client_of : Moment → App → Option (Client rt r)
  client_of m app = elim app.redis_client [ none ↦ none | some c ↦ some (m.server c) ]

  pub data Event : Type 0 where
    starts : Moment → Event
    asks : Moment → Route → Option Text → Event
    ends : Event

module _ (rt : Runtime) (hours : Hours rt.Float) where
  pub data Body : Type 0 where
    features : FeatureResponse rt → Body
    found : BatchResponse rt → Body
    health_report : HealthResponse rt hours → Body
    unhealthy : Body
    detail : Text → Body

  pub record Response : Type 0 where
    pub status_code : ℕ
    pub body : Body
    pub headers : Dict Text

  abbrev pub respond : ℕ → Body → Response
  respond status_code body = record { status_code = status_code; body = body; headers = [] }

  -- What FastAPI makes of an exception: an `HTTPException` becomes a response within the middleware,
  -- any other exception leaves it, and becomes a response with the status 500.
  pub record FastApi : Type 0 where
    pub http_response : ℕ → Text → Response
    pub server_error : Response
    pub http_response-status :
        (status_code : ℕ) (text : Text) → (http_response status_code text).status_code ≡ status_code
    pub server_error-status : server_error.status_code ≡ 500

  -- A 503 is a `JSONResponse`.
  abbrev pub health_response : HealthReply rt hours → Response
  health_response unavailable = respond 503 unhealthy
  health_response (report response) = respond 200 (health_report response)

  pub data Output : Type 0 where
    logged : Text → Output
    closed : RedisConnection → Output
    answered : Response → Output

  module _ (r : Redis) where
    unfoldable pub endpoint :
        Moment rt r → Route → Option Text → Option (Client rt r) → Outcome ApiError Response
    endpoint m (user user_id) header client = do
      response ← get_user_features rt r m.second m.served_at user_id header client
      returned (respond 200 (features response))
    endpoint m (batch user_ids) header client = do
      response ← get_batch_features rt r m.second m.served_at user_ids header client
      returned (respond 200 (found response))
    endpoint m health header client = do
      reply ← health_check rt hours r m.second m.now client
      returned (health_response reply)

  module _ (r : Redis) (fast_api : FastApi) where
    -- The handlers that stand inside the middleware.
    abbrev pub exception_handler : Outcome ApiError Response → Outcome ApiError Response
    exception_handler (raised (http status_code text)) =
        returned (fast_api.http_response status_code text)
    exception_handler (raised unhandled) = raised unhandled
    exception_handler (returned response) = returned response

    -- An exception of `call_next` passes the middleware by.
    abbrev pub add_process_time_header :
        Moment rt r → Outcome ApiError Response → Outcome ApiError Response
    add_process_time_header m call_next = do
      response ← call_next
      returned
          (record response { headers = put process_time_header m.process_time response.headers })

    abbrev pub last_resort : Outcome ApiError Response → Response
    last_resort (returned response) = response
    last_resort (raised e) = fast_api.server_error

    unfoldable pub handle : Moment rt r → Route → Option Text → App → Response
    handle m route header app = last_resort (
        add_process_time_header m
          (exception_handler (endpoint r m route header (client_of rt r m app))))

    -- The lifespan up to its `yield`: a ping that fails is logged.
    unfoldable pub start : RedisConnection → Moment rt r → App → App × List Output
    start c m app = (
      record app { redis_client = some c },
      (if (m.server c).reachable
            then logged (codes "Feature API started; Redis pool initialized.")
            else logged (codes "Feature API started but Redis is unreachable."))
          ∷ [],
    )

    -- The lifespan after its `yield`. A closed client connects again when it is used.
    unfoldable pub end : App → App × List Output
    end app = elim app.redis_client [
      | none ↦ (app, [])
      | some c ↦ (app, closed c ∷ logged (codes "Redis pool closed.") ∷ [])
    ]

    unfoldable pub step : RedisConnection → Event rt r → App → App × List Output
    step c (starts m) app = start c m app
    step c (asks m route header) app = (app, answered (handle m route header app) ∷ [])
    step c ends app = end app

    unfoldable pub serve : RedisConnection → List (Event rt r) → App → App × List Output
    serve c [] app = (app, [])
    serve c (e ∷ es) app =
        let (app1, out) = step c e app in
        let (app2, later) = serve c es app1 in (app2, out ++ later)

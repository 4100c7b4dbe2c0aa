-- ===== src/Api/App/Lifespan.antt =====
-- What the start of the API decides about its answers.
use realtime_fraud_feature_s.Prelude.{
  ◌≡◌, refl, ap, some, List, [], ◌∷◌, ◌++◌, Bool-cases, inl, inr,
}
use realtime_fraud_feature_s.Python.{Runtime}
use realtime_fraud_feature_s.Redis.{Redis}
use realtime_fraud_feature_s.Settings.{RedisConnection}
use realtime_fraud_feature_s.Api.Health.{Hours}
use realtime_fraud_feature_s.Api.App.{
  Response, FastApi, Moment, App, imported, handle, Event, starts, asks, ends, Output, logged,
  closed, answered, start, end, step, serve,
}

abbrev pub configured : RedisConnection → App
configured c = record { redis_client = some c }

module _ (rt : Runtime) (r : Redis) where
  abbrev pub NoStart : List (Event rt r) → Type 0
  NoStart [] = Unit
  NoStart (asks m route header ∷ es) = NoStart es
  NoStart (starts m ∷ es) = ⊥
  NoStart (ends ∷ es) = NoStart es

module _ (rt : Runtime) (hours : Hours rt.Float) where
  abbrev pub responses : List (Output rt hours) → List (Response rt hours)
  responses [] = []
  responses (answered response ∷ out) = response ∷ responses out
  responses (logged text ∷ out) = responses out
  responses (closed connection ∷ out) = responses out

module _ (rt : Runtime) (hours : Hours rt.Float) (r : Redis) (fast_api : FastApi rt hours) where
  -- The requests, each answered with this client, which reaches the server of the moment.
  abbrev pub answers : App → List (Event rt r) → List (Response rt hours)
  answers app [] = []
  answers app (asks m route header ∷ es) =
      handle rt hours r fast_api m route header app ∷ answers app es
  answers app (starts m ∷ es) = answers app es
  answers app (ends ∷ es) = answers app es

module _ (rt : Runtime) (hours : Hours rt.Float) (r : Redis) (fast_api : FastApi rt hours)
    (c : RedisConnection) where
  serve-configured :
      (es : List (Event rt r))
      → responses rt hours (serve rt hours r fast_api c es (configured c)).1
        ≡ answers rt hours r fast_api (configured c) es
  unfolding serve step start end
  serve-configured [] = refl
  serve-configured (starts m ∷ es) = elim (Bool-cases (m.server c).reachable) [
    | inl up ↦ rw (up) (serve-configured es)
    | inr down ↦ rw (down) (serve-configured es)
  ]
  serve-configured (asks m route header ∷ es) =
      ap (◌∷◌ (handle rt hours r fast_api m route header (configured c))) (serve-configured es)
  serve-configured (ends ∷ es) = serve-configured es

  -- Once the lifespan has started the application, whether or not its ping reached Redis, every
  -- request is answered with a client for the configured connection, and so by what that reaches at
  -- the request, also after the lifespan's end and after later starts. Requests before the first
  -- start are answered with no client.
  pub serve_lem :
      (early : List (Event rt r)) (m : Moment rt r) (es : List (Event rt r))
      → NoStart rt r early
      → responses rt hours (serve rt hours r fast_api c (early ++ (starts m ∷ es)) imported).1
        ≡ answers rt hours r fast_api imported early
          ++ answers rt hours r fast_api (configured c) es
  unfolding serve step start end
  serve_lem [] m es h = elim (Bool-cases (m.server c).reachable) [
    | inl up ↦ rw (up) (serve-configured es)
    | inr down ↦ rw (down) (serve-configured es)
  ]
  serve_lem (asks n route header ∷ early) m es h =
      ap (◌∷◌ (handle rt hours r fast_api n route header imported)) (serve_lem early m es h)
  serve_lem (starts n ∷ early) m es h = absurd h
  serve_lem (ends ∷ early) m es h = serve_lem early m es h

-- ===== src/Api/App/Access.antt =====
-- What a client without the API key learns.
use realtime_fraud_feature_s.Prelude.{
  ◌≡◌, ◌≢◌, refl, ap, Option, none, some, true, Text, codes, text_eq, text_eq_iff, raised,
  Bool-cases, inl, inr,
}
use realtime_fraud_feature_s.Python.{Runtime}
use realtime_fraud_feature_s.Redis.{Redis}
use realtime_fraud_feature_s.Prelude.{[], ◌∷◌}
use realtime_fraud_feature_s.Api.{
  http, dummy_api_key, get_api_key, Client, get_user_features, get_batch_features,
}
use realtime_fraud_feature_s.Api.Health.{Hours}
use realtime_fraud_feature_s.Api.App.{
  Route, user, batch, health, is_v1, FastApi, Moment, App, client_of, endpoint, handle,
}

refusal : Option Text → Text
refusal none = codes "Not authenticated"
refusal (some []) = codes "Not authenticated"
refusal (some (c ∷ cs)) = codes "Invalid API Key. Access denied."

get_api_key-raised :
    (header : Option Text)
    → header ≢ some dummy_api_key
    → get_api_key header ≡ raised (http 403 (refusal header))
unfolding get_api_key refusal
get_api_key-raised none wrong = refl
get_api_key-raised (some []) wrong = refl
get_api_key-raised (some (c ∷ cs)) wrong = elim (Bool-cases (text_eq (c ∷ cs) dummy_api_key)) [
  | inl same ↦ absurd (wrong (ap some ((text_eq_iff (c ∷ cs) dummy_api_key).0 same)))
  | inr other ↦ rw (other) refl
]

module _ (rt : Runtime) (hours : Hours rt.Float) (r : Redis) (fast_api : FastApi rt hours) where
  endpoint-refused :
      (m : Moment rt r) (route : Route) (header : Option Text) (client : Option (Client rt r))
      → is_v1 route ≡ true
      → header ≢ some dummy_api_key
      → endpoint rt hours r m route header client ≡ raised (http 403 (refusal header))
  unfolding endpoint get_user_features get_batch_features
  endpoint-refused m (user user_id) header client v1 wrong =
      rw (get_api_key-raised header wrong) refl
  endpoint-refused m (batch user_ids) header client v1 wrong =
      rw (get_api_key-raised header wrong) refl
  endpoint-refused m health header client v1 wrong = cc

  -- Without the right key every request to a route under `/v1` is answered with the status 403, and
  -- the answer tells nothing: it is the same for every route, user, state of the API and content of
  -- Redis, but for the time that it took.
  pub handle_refused :
      (m n : Moment rt r) (route other : Route) (header : Option Text) (app before : App)
      → is_v1 route ≡ true
      → is_v1 other ≡ true
      → header ≢ some dummy_api_key
      → m.process_time ≡ n.process_time
      → ((handle rt hours r fast_api m route header app).status_code ≡ 403)
        × (handle rt hours r fast_api m route header app
            ≡ handle rt hours r fast_api n other header before)
  unfolding handle
  handle_refused m n route other header app before v1 v1_too wrong time =
      rw
        (
          endpoint-refused m route header (client_of rt r m app) v1 wrong,
          endpoint-refused n other header (client_of rt r n before) v1_too wrong,
          time,
        )
        (fast_api.http_response-status 403 (refusal header), refl)

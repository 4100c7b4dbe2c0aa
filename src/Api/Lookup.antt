-- ===== src/Api/Lookup.antt =====
-- What the two feature endpoints answer, and that they agree.

use realtime_fraud_feature_s.Prelude.{
  ℕ, ◌≡◌, ◌↔◌, refl, ◌∙◌, Option, none, some, true, [], ◌∷◌, Text, text_eq_iff, text_eq_self,
  Outcome, returned, arith, Option-cases, inl, inr, >>=-returned,
}
use realtime_fraud_feature_s.Python.{Runtime}
use realtime_fraud_feature_s.Redis.{Redis}
use realtime_fraud_feature_s.Api.{
  feature_key, ApiError, dummy_api_key, get_api_key, get_redis, FeatureResponse, answer, parse,
  Client, connected, get_user_features,
}

module _ (rt : Runtime) (r : Redis) (now : ℕ) (served_at : Text) where
  abbrev pub lookup : Client rt r → Text → Outcome ApiError (FeatureResponse rt)
  lookup client user_id =
      get_user_features rt r now served_at user_id (some dummy_api_key) (some client)

  -- The `requests` that pass the two dependencies.
  pub get_api_key-returned :
      (header : Option Text) (k : Text)
      → get_api_key header ≡ returned k
      → header ≡ some dummy_api_key
  unfolding get_api_key
  get_api_key-returned none k h = cc
  get_api_key-returned (some []) k h = cc
  get_api_key-returned (some (c ∷ cs)) k h = ground (arith, text_eq_iff (c ∷ cs) dummy_api_key)

  pub get_api_key-dummy : get_api_key (some dummy_api_key) ≡ returned dummy_api_key
  unfolding get_api_key
  get_api_key-dummy = rw (text_eq_self dummy_api_key)

  pub get_redis-returned :
      (o : Option (Client rt r)) (c : Client rt r) → get_redis o ≡ returned c → o ≡ some c
  unfolding get_redis
  get_redis-returned none c h = cc
  get_redis-returned (some d) c h = ground arith

  pub connected-returned :
      (client : Client rt r) (a b : Option Text)
      → connected rt r client a ≡ returned b
      → (client.reachable ≡ true) × (a ≡ b)
  connected-returned client a b h = ground arith

  pub answer-returned :
      (user_id : Text) (o : Option Text) (resp : FeatureResponse rt)
      → answer rt served_at user_id o ≡ returned resp
      → (raw : Text) × (o ≡ some raw)
        × (rt.loads raw ≡ some resp.features)
        × ((resp.user_id ≡ user_id) × (resp.served_at ≡ served_at))
  unfolding answer
  answer-returned user_id none resp h = cc
  answer-returned user_id (some raw) resp h = elim (Option-cases (rt.loads raw)) [
    | inl bad ↦ cc (rw (bad, parse) at h)
    | inr (o, good) ↦
        let e : ◌≡◌ {A = Outcome ApiError (FeatureResponse rt)}
            (returned (record { user_id = user_id; features = o; served_at = served_at }))
            (returned resp) =
          rw (good, parse) at h in
        (raw, refl, ground arith, ground arith)
  ]

  -- The conditions of a 200.
  pub record Serves (user_id : Text) (header : Option Text) (redis_client : Option (Client rt r))
      (resp : FeatureResponse rt) : Type 0 where
    pub authorized : header ≡ some dummy_api_key
    pub client : Client rt r
    pub initialized : redis_client ≡ some client
    pub reachable : client.reachable ≡ true
    pub raw : Text
    pub stored : r.get now client.store (feature_key user_id) ≡ some raw
    pub parsed : rt.loads raw ≡ some resp.features
    pub echoed : (resp.user_id ≡ user_id) × (resp.served_at ≡ served_at)

  get_user_features-Serves :
      (user_id : Text) (header : Option Text) (redis_client : Option (Client rt r))
      (resp : FeatureResponse rt)
      → get_user_features rt r now served_at user_id header redis_client ≡ returned resp
      → Serves user_id header redis_client resp
  unfolding get_user_features
  get_user_features-Serves user_id header redis_client resp h =
      let (k, granted, h1) = >>=-returned (get_api_key header) _ h in
      let (client, given, h2) = >>=-returned (get_redis redis_client) _ h1 in
      let (o, read, h3) =
        >>=-returned (connected rt r client (r.get now client.store (feature_key user_id))) _ h2 in
      let (raw, stored, parsed, echoed) = answer-returned user_id o resp h3 in
      record {
        authorized = get_api_key-returned header k granted;
        client = client;
        initialized = get_redis-returned redis_client client given;
        reachable = (connected-returned client _ o read).0;
        raw = raw;
        stored = (connected-returned client _ o read).1 ∙ stored;
        parsed = parsed;
        echoed = echoed;
      }

  -- The single endpoint answers 200 exactly if the key is right, the client is set up and reached,
  -- and the user's key holds a JSON object, which is what it answers with.
  pub get_user_features_iff :
      (user_id : Text) (header : Option Text) (redis_client : Option (Client rt r))
      (resp : FeatureResponse rt)
      → (get_user_features rt r now served_at user_id header redis_client ≡ returned resp)
        ↔ Serves user_id header redis_client resp
  unfolding get_user_features
  get_user_features_iff user_id header redis_client resp = (
    get_user_features-Serves user_id header redis_client resp,
    λ s.
        rw (s.authorized, s.initialized, get_api_key-dummy, s.reachable, s.stored, parse, s.parsed)
          (ground arith),
  )

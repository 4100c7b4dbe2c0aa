-- ===== src/Api/Health.antt =====
-- `health_check` of feature_store/src/api.py. Redis is reached or not for the whole request.
use realtime_fraud_feature_s.Prelude.{
  ℕ, ◌*◌, ◌≡◌, ◌≢◌, refl, sym, ◌∙◌, Option, none, some, Bool, true, [], ◌∷◌, Text, codes, text_eq,
  text_eq_self, Dict, get, IsDict, Outcome, returned, raised, ◌>>=◌, >>=-returned, if◌then◌else◌,
  arith, ℤ, pos, ltb_ℤ, Bool-cases, inl, inr,
}
use realtime_fraud_feature_s.Python.{Json, Runtime, DateTime, subtract}
use realtime_fraud_feature_s.Redis.{Redis}
use realtime_fraud_feature_s.Redis.Session.{Session}
use realtime_fraud_feature_s.Loader.Metadata.{metadata, set_metadata}
use realtime_fraud_feature_s.Api.{ApiError, unhandled, get_redis, Client}

abbrev pub loaded_key : Text
loaded_key = codes "_meta:features:last_loaded"

abbrev pub freshness_limit_hours : ℕ
freshness_limit_hours = 25

-- Hours as floats: of a `timedelta` in microseconds, the test against a number of hours, and
-- rounding to two places. The test at the limit is exact, since a float near 25 tells microseconds.
pub record Hours (F : Type 0) : Type 0 where
  pub of : ℤ → F
  pub below : F → ℕ → Bool
  pub round : F → F
  pub below-of :
      (us : ℤ)
      → below (of us) freshness_limit_hours ≡ ltb_ℤ us (pos (freshness_limit_hours * 3_600_000_000))

pub data Status : Type 0 where
  healthy degraded : Status

module _ (rt : Runtime) (hours : Hours rt.Float) where
  pub record HealthResponse : Type 0 where
    pub status : Status
    pub features_age_hours : Option rt.Float
    pub last_loaded_at : Option Text

  -- A 503 with a fixed body, or a 200 with "connected" and these fields.
  pub data HealthReply : Type 0 where
    unavailable : HealthReply
    report : HealthResponse → HealthReply

  -- meta["last_loaded_at"], as the text that `fromisoformat` needs
  unfoldable pub last_loaded_text : Dict (Json rt.Float) → Outcome ApiError Text
  last_loaded_text meta = elim (get (codes "last_loaded_at") meta) [
    | some (Json.str s) ↦ returned s
    | _ ↦ raised unhandled
  ]

  abbrev required {ℓ} : {A : Type ℓ} → Option A → Outcome ApiError A
  required none = raised unhandled
  required (some a) = returned a

  unfoldable pub freshness : DateTime → Text → Outcome ApiError HealthReply
  unfolding last_loaded_text
  freshness now meta_raw = do
    meta ← required (rt.loads meta_raw)
    text ← last_loaded_text meta
    last_loaded ← required (rt.fromisoformat text)
    age ← required (subtract now last_loaded)
    let age_hours = hours.of age
    returned (
        report (record {
          status = if hours.below age_hours freshness_limit_hours then healthy else degraded;
          features_age_hours = some (hours.round age_hours);
          last_loaded_at = some text;
        }))

  -- `if not meta_raw`: no key, or an empty text
  unfoldable pub metadata_reply : DateTime → Option Text → Outcome ApiError HealthReply
  metadata_reply now (some (c ∷ cs)) = freshness now (c ∷ cs)
  metadata_reply now _ =
      returned
        (report (record { status = degraded; features_age_hours = none; last_loaded_at = none }))

  -- A text of metadata whose load time lies less than 25 hours back.
  pub record IsFresh (now : DateTime) (raw : Text) : Type 0 where
    pub meta : Dict (Json rt.Float)
    pub parsed : rt.loads raw ≡ some meta
    pub text : Text
    pub named : last_loaded_text meta ≡ returned text
    pub last_loaded : DateTime
    pub read : rt.fromisoformat text ≡ some last_loaded
    pub age : ℤ
    pub aged : subtract now last_loaded ≡ some age
    pub fresh : ltb_ℤ age (pos (freshness_limit_hours * 3_600_000_000)) ≡ true

  required-returned {ℓ} : {A : Type ℓ} (o : Option A) (a : A) → required o ≡ returned a → o ≡ some a
  required-returned none a h = cc
  required-returned (some b) a h = ground arith

  freshness-IsFresh :
      (now : DateTime) (raw : Text) (resp : HealthResponse)
      → freshness now raw ≡ returned (report resp)
      → resp.status ≡ healthy
      → IsFresh now raw
  unfolding freshness
  freshness-IsFresh now raw resp h s =
      let (meta, parsed, h1) = >>=-returned (required (rt.loads raw)) _ h in
      let (text, named, h2) = >>=-returned (last_loaded_text meta) _ h1 in
      let (last_loaded, read, h3) = >>=-returned (required (rt.fromisoformat text)) _ h2 in
      let (age, aged, h4) = >>=-returned (required (subtract now last_loaded)) _ h3 in
      record {
        meta = meta;
        parsed = required-returned _ _ parsed;
        text = text;
        named = named;
        last_loaded = last_loaded;
        read = required-returned _ _ read;
        age = age;
        aged = required-returned _ _ aged;
        fresh = sym (hours.below-of age) ∙ ground arith;
      }

  metadata_reply-IsFresh :
      (now : DateTime) (o : Option Text) (resp : HealthResponse)
      → metadata_reply now o ≡ returned (report resp)
      → resp.status ≡ healthy
      → (raw : Text) × (o ≡ some raw) × IsFresh now raw
  unfolding metadata_reply
  metadata_reply-IsFresh now (some (c ∷ cs)) resp h s =
      (c ∷ cs, refl, freshness-IsFresh now (c ∷ cs) resp h s)
  metadata_reply-IsFresh now (some []) resp h s = ground arith
  metadata_reply-IsFresh now none resp h s = ground arith

  metadata_reply-of_text :
      (now : DateTime) (raw : Text) → raw ≢ [] → metadata_reply now (some raw) ≡ freshness now raw
  unfolding metadata_reply
  metadata_reply-of_text now [] h = absurd (h refl)
  metadata_reply-of_text now (c ∷ cs) h = refl

  metadata-IsDict : (loaded : DateTime) (m n : ℕ) → IsDict (metadata rt loaded m n)
  unfolding metadata get text_eq
  metadata-IsDict loaded m n = (refl, (refl, (refl, (refl, tt))))

  freshness-metadata :
      (loaded now : DateTime) (m n : ℕ) (age : ℤ)
      → subtract now loaded ≡ some age
      → freshness now (rt.dumps (metadata rt loaded m n))
        ≡ returned (
            report (record {
              status =
                  if ltb_ℤ age (pos (freshness_limit_hours * 3_600_000_000))
                  then healthy
                  else degraded;
              features_age_hours = some (hours.round (hours.of age));
              last_loaded_at = some (rt.isoformat loaded);
            }))
  unfolding freshness metadata get text_eq
  freshness-metadata loaded now m n age aged = rw (
    rt.loads-dumps _ (metadata-IsDict loaded m n),
    rt.fromisoformat-isoformat,
    aged,
    hours.below-of,
  )

  module _ (r : Redis) where
    unfoldable pub health_check : ℕ → DateTime → Option (Client rt r) → Outcome ApiError HealthReply
    unfolding get_redis metadata_reply
    health_check second now redis_client = do
      client ← get_redis redis_client
      if client.reachable
          then metadata_reply now (r.get second client.store loaded_key)
          else returned unavailable

    -- Right after `set_metadata`, with Redis reached and a load time that can be subtracted from
    -- `now`, the answer names that load time and its age, and is healthy exactly if the age is below
    -- 25 hours.
    pub health_check-set_metadata :
        (clock : ℕ → ℕ) (loaded now : DateTime) (user_count merchant_count : ℕ)
        (t : Session r clock) (second : ℕ) (age : ℤ)
        → subtract now loaded ≡ some age
        → health_check second now (
            some (record {
              store = (set_metadata rt r clock loaded user_count merchant_count t).store;
              reachable = true;
            }))
          ≡ returned (
              report (record {
                status =
                    if ltb_ℤ age (pos (freshness_limit_hours * 3_600_000_000))
                    then healthy
                    else degraded;
                features_age_hours = some (hours.round (hours.of age));
                last_loaded_at = some (rt.isoformat loaded);
              }))
    unfolding health_check set_metadata
    health_check-set_metadata clock loaded now user_count merchant_count t second age aged =
        rw (r.get-entry, r.entry-set, text_eq_self)
          (metadata_reply-of_text now _ (rt.dumps-ne-nil _)
            ∙ freshness-metadata loaded now user_count merchant_count age aged)

    -- Healthy is answered only if Redis is reached and holds metadata whose load time lies less
    -- than 25 hours back.
    pub health_check-IsFresh :
        (second : ℕ) (now : DateTime) (client : Client rt r) (resp : HealthResponse)
        → health_check second now (some client) ≡ returned (report resp)
        → resp.status ≡ healthy
        → (client.reachable ≡ true)
          × ((raw : Text) × (r.get second client.store loaded_key ≡ some raw) × IsFresh now raw)
    unfolding health_check
    health_check-IsFresh second now client resp h s = elim (Bool-cases client.reachable) [
      | inl up ↦ (up, metadata_reply-IsFresh now _ resp (rw up at h) s)
      | inr down ↦ cc (rw down at h)
    ]

-- ===== src/Api/Batch.antt =====
-- The batch endpoint answers as the single endpoint would, one user after another.
use mathlib.Core.Path.{subst}
use mathlib.Core.List.{append-nil, append_assoc}
use realtime_fraud_feature_s.Prelude.{
  ℕ, ◌+◌, ◌≤◌, ◌≡◌, ◌↔◌, refl, sym, ap, ◌∙◌, Option, none, some, true, List, [], ◌∷◌, ◌++◌, map,
  Text, codes, length, leb, returned, raised, ◌>>=◌, >>=-returned, arith, Option-cases, inl, inr,
}
use realtime_fraud_feature_s.Python.{Json, Loaded, object, other, Runtime}
use realtime_fraud_feature_s.Redis.{Redis}
use realtime_fraud_feature_s.Api.{
  feature_key, http, unhandled, dummy_api_key, Features, FeatureResponse, Found, BatchResponse,
  summary, answer, parse, batch_loop, Client, get_user_features, get_batch_features,
}
use realtime_fraud_feature_s.Api.Lookup.{lookup, get_api_key-dummy, answer-returned}

module _ (rt : Runtime) (r : Redis) (now : ℕ) (served_at : Text) (client : Client rt r) where
  -- The results and the missing ids that the single endpoint's answers give, in order: a user is
  -- found with the features of a 200, and missing on a 404. Where JSON that is not an object is
  -- stored, an exception ends the single endpoint, and the user is found with that JSON.
  pub data Splits : List Text → List (Found rt) → List Text → Type 0 where
    nobody : Splits [] [] []
    hit :
        {user_id : Text} {resp : FeatureResponse rt} {ids : List Text} {fs : List (Found rt)}
        {ms : List Text}
        → lookup rt r now served_at client user_id ≡ returned resp
        → Splits ids fs ms
        → Splits
            (user_id ∷ ids)
            (record { user_id = user_id; features = object resp.features } ∷ fs)
            ms
    unshaped :
        {user_id raw : Text} {v : Json rt.Float} {ids : List Text} {fs : List (Found rt)}
        {ms : List Text}
        → r.get now client.store (feature_key user_id) ≡ some raw
        → rt.loads_any raw ≡ some (other v)
        → lookup rt r now served_at client user_id ≡ raised unhandled
        → Splits ids fs ms
        → Splits (user_id ∷ ids) (record { user_id = user_id; features = other v } ∷ fs) ms
    miss :
        {user_id detail : Text} {ids : List Text} {fs : List (Found rt)} {ms : List Text}
        → lookup rt r now served_at client user_id ≡ raised (http 404 detail)
        → Splits ids fs ms
        → Splits (user_id ∷ ids) fs (user_id ∷ ms)

  length-Splits :
      {ids : List Text} {fs : List (Found rt)} {ms : List Text}
      → Splits ids fs ms
      → length fs + length ms ≡ length ids
  length-Splits nobody = refl
  length-Splits (hit e s) = omega (arith, length-Splits s)
  length-Splits (unshaped there good fails s) = omega (arith, length-Splits s)
  length-Splits (miss e s) = omega (arith, length-Splits s)

  module _ (up : client.reachable ≡ true) where
    lookup-answer :
        (user_id : Text)
        → lookup rt r now served_at client user_id
          ≡ answer rt served_at user_id (r.get now client.store (feature_key user_id))
    unfolding get_user_features
    lookup-answer user_id = rw (get_api_key-dummy rt r now served_at, up)

    lookup_missing :
        (user_id : Text)
        → r.get now client.store (feature_key user_id) ≡ none
        → lookup rt r now served_at client user_id
          ≡ raised (http 404 (codes "No features found for user '" ++ (user_id ++ codes "'.")))
    unfolding answer
    lookup_missing user_id gone = lookup-answer user_id ∙ ap (answer rt served_at user_id) gone

    lookup_found :
        (user_id raw : Text) (o : Features rt)
        → r.get now client.store (feature_key user_id) ≡ some raw
        → rt.loads raw ≡ some o
        → lookup rt r now served_at client user_id
          ≡ returned (record { user_id = user_id; features = o; served_at = served_at })
    unfolding answer
    lookup_found user_id raw o there good =
        lookup-answer user_id ∙ (ap (answer rt served_at user_id) there ∙ rw (parse, good))

    lookup_unshaped :
        (user_id raw : Text) (v : Json rt.Float)
        → r.get now client.store (feature_key user_id) ≡ some raw
        → rt.loads_any raw ≡ some (other v)
        → lookup rt r now served_at client user_id ≡ raised unhandled
    unfolding answer
    lookup_unshaped user_id raw v there good = elim (Option-cases (rt.loads raw)) [
      | inl bad ↦ lookup-answer user_id ∙ (ap (answer rt served_at user_id) there ∙ rw (parse, bad))
      | inr (o, shaped) ↦ let same = (rt.loads-loads_any raw o).0 shaped in cc
    ]

    found_as :
        (user_id raw : Text) (v : Loaded rt.Float) {ids : List Text} {fs : List (Found rt)}
        {ms : List Text}
        → r.get now client.store (feature_key user_id) ≡ some raw
        → rt.loads_any raw ≡ some v
        → Splits ids fs ms
        → Splits (user_id ∷ ids) (record { user_id = user_id; features = v } ∷ fs) ms
    found_as user_id raw (object o) there good s =
        hit (lookup_found user_id raw o there ((rt.loads-loads_any raw o).1 good)) s
    found_as user_id raw (other v) there good s =
        unshaped there good (lookup_unshaped user_id raw v there good) s

    batch_loop-Splits :
        (ids : List Text) (f : List (Found rt)) (m : List Text) (q : List (Found rt) × List Text)
        → batch_loop rt ids (map (r.get now client.store) (map feature_key ids)) f m ≡ returned q
        → (fs : List (Found rt)) × (ms : List Text) × (q.0 ≡ f ++ fs)
          × (q.1 ≡ m ++ ms)
          × Splits ids fs ms
    unfolding batch_loop
    batch_loop-Splits [] f m q h =
        ([], [], rw append-nil (ground arith), rw append-nil (ground arith), nobody)
    batch_loop-Splits (user_id ∷ ids) f m q h =
        elim (Option-cases (r.get now client.store (feature_key user_id))) [
          | inl gone ↦
              let (fs, ms, e, d, s) =
                batch_loop-Splits ids f (m ++ user_id ∷ []) q (rw (gone, batch_loop) at h) in
              (
                fs,
                user_id ∷ ms,
                e,
                d ∙ append_assoc m (user_id ∷ []) ms,
                miss (lookup_missing user_id gone) s,
              )
          | inr (raw, there) ↦ elim (Option-cases (rt.loads_any raw)) [
            | inl bad ↦ cc (rw (there, batch_loop, bad) at h)
            | inr (v, good) ↦
                let hit_of : List (Found rt) = record { user_id = user_id; features = v } ∷ [] in
                let (fs, ms, e, d, s) =
                  batch_loop-Splits ids (f ++ hit_of) m q (rw (there, batch_loop, good) at h) in
                (
                  record { user_id = user_id; features = v } ∷ fs,
                  ms,
                  e ∙ append_assoc f hit_of fs,
                  d,
                  found_as user_id raw v there good s,
                )
          ]
        ]

    answer-missing :
        (user_id detail : Text) (o : Option Text)
        → answer rt served_at user_id o ≡ raised (http 404 detail)
        → o ≡ none
    unfolding answer
    answer-missing user_id detail none h = refl
    answer-missing user_id detail (some raw) h = elim (Option-cases (rt.loads raw)) [
      | inl bad ↦ cc (rw (parse, bad) at h)
      | inr (o, good) ↦ cc (rw (parse, good) at h)
    ]

    batch_loop-of-Splits :
        {ids : List Text} {fs : List (Found rt)} {ms : List Text}
        → Splits ids fs ms
        → (f : List (Found rt)) (m : List Text)
        → batch_loop rt ids (map (r.get now client.store) (map feature_key ids)) f m
          ≡ returned (f ++ fs, m ++ ms)
    unfolding batch_loop
    batch_loop-of-Splits nobody f m = rw (append-nil, append-nil)
    batch_loop-of-Splits (hit {user_id} {resp} {fs} e s) f m =
        let (raw, there, good, same) =
          answer-returned rt r now served_at user_id _ resp (sym (lookup-answer user_id) ∙ e) in
        let hit_of : List (Found rt) =
          record { user_id = user_id; features = object resp.features } ∷ [] in
        rw (there, batch_loop, (rt.loads-loads_any raw resp.features).0 good)
          (batch_loop-of-Splits s (f ++ hit_of) m ∙ rw (append_assoc f hit_of fs))
    batch_loop-of-Splits (unshaped {user_id} {v} {fs} there good fails s) f m =
        let hit_of : List (Found rt) = record { user_id = user_id; features = other v } ∷ [] in
        rw (there, batch_loop, good)
          (batch_loop-of-Splits s (f ++ hit_of) m ∙ rw (append_assoc f hit_of fs))
    batch_loop-of-Splits (miss {user_id} {detail} {ms} e s) f m =
        rw (answer-missing user_id detail _ (sym (lookup-answer user_id) ∙ e), batch_loop)
          (batch_loop-of-Splits s f (m ++ user_id ∷ []) ∙ rw (append_assoc m (user_id ∷ []) ms))

  -- What a batch response says of its users.
  pub record Reports (user_ids : List Text) (b : BatchResponse rt) : Type 0 where
    pub split : Splits user_ids b.results b.missing_ids
    pub requested : b.requested ≡ length user_ids
    pub found : b.found ≡ length b.results
    pub missing : b.missing ≡ length b.missing_ids
    pub at : b.served_at ≡ served_at

  le→leb : (n : ℕ) → n ≤ 100 → leb n 100 ≡ true
  le→leb n h = ground arith

  get_batch_features-eq-loop :
      (user_ids : List Text)
      → client.reachable ≡ true
      → length user_ids ≤ 100
      → get_batch_features rt r now served_at user_ids (some dummy_api_key) (some client) ≡ (
          batch_loop rt user_ids (map (r.get now client.store) (map feature_key user_ids)) [] []
          >>= λ lists. returned (summary rt user_ids served_at lists))
  unfolding get_batch_features
  get_batch_features-eq-loop user_ids up fits =
      simp (get_api_key-dummy rt r now served_at, up, le→leb (length user_ids) fits, r.mget-get)

  -- With the right key, a client that reaches Redis and at most 100 users, the batch answers
  -- exactly if each user by itself is answered with a 200 or a 404 or has JSON that is no object
  -- stored, for which the single endpoint raises an exception. Then its results are the 200s and
  -- that JSON, and its missing ids the 404s, in the order of the request, with their numbers.
  pub get_batch_features_iff :
      (user_ids : List Text) (b : BatchResponse rt)
      → client.reachable ≡ true
      → length user_ids ≤ 100
      → (get_batch_features rt r now served_at user_ids (some dummy_api_key) (some client)
          ≡ returned b)
        ↔ Reports user_ids b
  get_batch_features_iff user_ids b up fits =
      rw (get_batch_features-eq-loop user_ids up fits) (forth, back)
    where
      forth :
          (batch_loop rt user_ids (map (r.get now client.store) (map feature_key user_ids)) [] []
              >>= λ lists. returned (summary rt user_ids served_at lists))
            ≡ returned b
          → Reports user_ids b
      forth h =
          let (q, looped, e) = >>=-returned _ _ h in
          let (fs, ms, found, missing, s) = batch_loop-Splits up user_ids [] [] q looped in
          let same : summary rt user_ids served_at q ≡ b = ground arith in
          subst (Reports user_ids) same (record {
            split = rw (found, missing) s;
            requested = refl;
            found = refl;
            missing = refl;
            at = refl;
          })

      back :
          Reports user_ids b
          → (batch_loop rt user_ids (map (r.get now client.store) (map feature_key user_ids)) [] []
              >>= λ lists. returned (summary rt user_ids served_at lists))
            ≡ returned b
      back p = rw (batch_loop-of-Splits up p.split [] []) (ground arith)

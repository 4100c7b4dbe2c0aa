-- ===== src/Bronze/Script/Ends.antt =====
-- How the ingestion script ends.
use realtime_fraud_feature_s.Prelude.{
  ◌≡◌, ◌≢◌, ◌↔◌, ◌⊎◌, refl, inl, inr, ◌∙◌, Bool, List, [], ◌∷◌, ◌++◌, codes, Outcome, returned,
  raised, Outcome-cases,
}
use realtime_fraud_feature_s.Settings.{Env}
use realtime_fraud_feature_s.SparkConfig.{create_spark_session}
use realtime_fraud_feature_s.Bronze.Script.{
  Stop, keyboard_interrupt, exception, Call, session, stop, Cluster, body, attempt, handled,
  run_script,
}

-- A list of calls has this one.
abbrev pub Has : Call → List Call → Type 0
Has c [] = ⊥
Has c (d ∷ ds) = (c ≡ d) ⊎ Has c ds

Has-append_left : (c : Call) (ds es : List Call) → Has c ds → Has c (ds ++ es)
Has-append_left c [] es h = absurd h
Has-append_left c (d ∷ ds) es (inl same) = inl same
Has-append_left c (d ∷ ds) es (inr h) = inr (Has-append_left c ds es h)

Has-append : (c : Call) (ds es : List Call) → Has c (ds ++ es) → Has c ds ⊎ Has c es
Has-append c [] es h = inr h
Has-append c (d ∷ ds) es (inl same) = inl (inl same)
Has-append c (d ∷ ds) es (inr h) = elim (Has-append c ds es h) [
  | inl in_ds ↦ inl (inr in_ds)
  | inr in_es ↦ inr in_es
]

-- Calls in order end with an exception exactly if one that was made raised it.
attempt-raised :
    (answer : Call → Outcome Stop (Unit {0})) (cs : List Call) (e : Stop)
    → ((attempt answer cs).1 ≡ raised e)
      ↔ ((c : Call) × Has c (attempt answer cs).0 × (answer c ≡ raised e))
unfolding attempt
attempt-raised answer [] e = (λ h. cc h, λ p. absurd p.1)
attempt-raised answer (c ∷ cs) e = elim (Outcome-cases (answer c)) [
  | inl (u, fine) ↦
      rw (attempt, fine)
        (
          λ h. let (d, made, bad) = (attempt-raised answer cs e).0 h in (d, inr made, bad),
          λ p. later u fine (attempt-raised answer cs e).1 p,
        )
  | inr (f, bad) ↦ rw (attempt, bad) (λ h. (c, inl refl, bad ∙ h), λ p. first f bad p)
]
  where
    later :
        (u : Unit {0})
        → answer c ≡ returned u
        → (((d : Call) × Has d (attempt answer cs).0 × (answer d ≡ raised e))
            → (attempt answer cs).1 ≡ raised e)
        → (d : Call) × Has d (c ∷ (attempt answer cs).0) × (answer d ≡ raised e)
        → (attempt answer cs).1 ≡ raised e
    later u fine back (d, inl same, bad) = cc
    later u fine back (d, inr made, bad) = back (d, made, bad)

    first :
        (f : Stop)
        → answer c ≡ raised f
        → (d : Call) × Has d (c ∷ []) × (answer d ≡ raised e)
        → ◌≡◌ {A = Outcome Stop (Unit {0})} (raised f) (raised e)
    first f bad (d, inl same, worse) = cc
    first f bad (d, inr nowhere, worse) = absurd nowhere

handled-exception :
    (o : Outcome Stop (Unit {0})) → (handled o ≡ raised exception) ↔ (o ≡ raised exception)
handled-exception (returned u) = (λ h. h, λ h. h)
handled-exception (raised keyboard_interrupt) = (λ h. cc h, λ h. cc h)
handled-exception (raised exception) = (λ h. h, λ h. h)

handled-no_interrupt : (o : Outcome Stop (Unit {0})) → handled o ≢ raised keyboard_interrupt
handled-no_interrupt (returned u) h = cc
handled-no_interrupt (raised keyboard_interrupt) h = cc
handled-no_interrupt (raised exception) h = cc

-- Neither the session's call nor the last one raised it.
raised_in_body :
    (answer : Call → Outcome Stop (Unit {0})) (made : List Call) (created : Call)
    → answer created ≡ returned tt
    → answer stop ≡ returned tt
    → (c : Call) × Has c (created ∷ (made ++ stop ∷ [])) × (answer c ≡ raised exception)
    → (c : Call) × Has c made × (answer c ≡ raised exception)
raised_in_body answer made created opened closed (c, inl same, bad) = cc
raised_in_body answer made created opened closed (c, inr h, bad) =
    elim (Has-append c made (stop ∷ []) h) [
      | inl in_made ↦ (c, in_made, bad)
      | inr (inl last) ↦ cc
      | inr (inr nowhere) ↦ absurd nowhere
    ]

run_script_made :
    (env : Env) (once : Bool) (cluster : Cluster)
    → cluster.answer (session (create_spark_session env (codes "bronze-ingest"))) ≡ returned tt
    → cluster.answer stop ≡ returned tt
    → let made = attempt cluster.answer (body env once cluster.active) in
      run_script env once cluster ≡ (
        session (create_spark_session env (codes "bronze-ingest")) ∷ (made.0 ++ stop ∷ []),
        handled made.1,
      )
unfolding run_script
run_script_made env once cluster opened closed = rw (run_script, opened, closed) refl

-- Once the session is there, the script's last call stops it, whatever is raised before. If that
-- call returns, the script raises an exception exactly if one of its calls has raised one, and never
-- ends with the Ctrl+C that a call raises.
pub run_script_lem :
    (env : Env) (once : Bool) (cluster : Cluster)
    → cluster.answer (session (create_spark_session env (codes "bronze-ingest"))) ≡ returned tt
    → cluster.answer stop ≡ returned tt
    → ((before : List Call) × ((run_script env once cluster).0 ≡ before ++ stop ∷ []))
      × ((((run_script env once cluster).1 ≡ raised exception) ↔ (
            (c : Call) × Has c (run_script env once cluster).0
            × (cluster.answer c ≡ raised exception)))
          × ((run_script env once cluster).1 ≢ raised keyboard_interrupt))
run_script_lem env once cluster opened closed =
    let answer = cluster.answer in
    let calls = body env once cluster.active in
    let created = session (create_spark_session env (codes "bronze-ingest")) in
    let (there, back) = attempt-raised answer calls exception in
    let (out, into) = handled-exception (attempt answer calls).1 in
    rw (run_script_made env once cluster opened closed) (
      (created ∷ (attempt answer calls).0, refl),
      (
        (
          λ h.
              let (c, made, bad) = there (out h) in
              (c, inr (Has-append_left c (attempt answer calls).0 (stop ∷ []) made), bad),
          λ p. into (back (raised_in_body answer (attempt answer calls).0 created opened closed p)),
        ),
        handled-no_interrupt (attempt answer calls).1,
      ),
    )

-- ===== src/Runner/Publish.antt =====
-- `main` of ingestion/transaction_generator/src/run.py with its events: the generator on the
-- profiles, and what the producer is asked to do. The draws of the i-th event are `draws i`.
pub mod Turns
pub mod Ends
use realtime_fraud_feature_s.Prelude.{
  ℕ, zero, suc, ◌+◌, ◌%◌, Bool, true, false, Option, none, some, List, [], ◌∷◌, ◌++◌, Text, map,
  if◌then◌else◌, Outcome, returned, raised, ◌>>=◌, ◌==◌,
}
use realtime_fraud_feature_s.Python.{Random, FakerLibrary, Outside}
use realtime_fraud_feature_s.Schemas.{TransactionEvent, Pydantic}
use realtime_fraud_feature_s.Profiles.{
  UserProfile, MerchantProfile, ProfileFactory, post_init, make_users, make_merchants,
}
use realtime_fraud_feature_s.Generator.{GeneratorError, Floats, Draws, generate_one}
use realtime_fraud_feature_s.Generator.Batch.{TransactionGenerator, init}
use realtime_fraud_feature_s.SeedReference.{num_users, num_merchants, seed}
use realtime_fraud_feature_s.Runner.{
  Action, send, flush, sleep, close, Args, reached, progress, pause, closing,
}

-- What `main` does in order: it sends an event, or acts without one.
pub data Deed : Type 0 where
  sends : TransactionEvent → Deed
  acts : Action → Deed

-- The deeds so far, and the exception that ends the run, if one does.
abbrev pub Run : Type 0
Run = Outcome GeneratorError (Unit {0}) × List Deed

abbrev pub before_run : List Deed → Option Run → Option Run
before_run deeds none = none
before_run deeds (some (o, rest)) = some (o, deeds ++ rest)

-- A turn that goes on: the event, a flush at a progress line, a sleep.
abbrev pub turn : Args → TransactionEvent → ℕ → List Deed
turn args event total_sent = sends event ∷ map acts (progress total_sent ++ pause args)

-- The `finally` block.
abbrev pub finally : Option Run → Option Run
finally none = none
finally (some (o, deeds)) = some (o, deeds ++ map acts closing)

module _ (floats : Floats) (py : Pydantic) (draws : ℕ → Draws floats) (gen : TransactionGenerator)
    (args : Args) (interrupted : ℕ → Bool) where
  unfoldable pub publish_loop : ℕ → ℕ → Option Run
  publish_loop zero total_sent = none
  publish_loop (suc fuel) total_sent = elim (interrupted total_sent) [
    | true ↦ some (returned tt, [])
    | false ↦ elim (generate_one floats py gen.users gen.merchants (draws total_sent)) [
      | raised e ↦ some (raised e, [])
      | returned event ↦ elim (reached args.max_events (total_sent + 1)) [
        | true ↦ some (returned tt, sends event ∷ [])
        | false ↦ before_run (turn args event (total_sent + 1)) (publish_loop fuel (total_sent + 1))
      ]
    ]
  ]

  unfoldable pub publish : ℕ → Option Run
  unfolding publish_loop
  publish fuel = finally (publish_loop fuel 0)

module _ (rnd : Random) (fk : FakerLibrary) (sha256 : Text → Text) (outside : Outside rnd fk) where
  abbrev pub main_users : List UserProfile × ProfileFactory rnd fk sha256
  main_users =
      make_users rnd fk sha256 outside num_users (post_init rnd fk sha256 outside (some seed))

  abbrev pub main_merchants : List MerchantProfile × ProfileFactory rnd fk sha256
  main_merchants = make_merchants rnd fk sha256 outside num_merchants main_users.1

-- An exception before the `try` block.
pub data StartError : Type 0 where
  generator : GeneratorError → StartError
  kafka_error : StartError

-- `main` on its profiles, `none` when the fuel of the loop runs out. `connects` says whether
-- kafka-python's constructor returns, which raises where it finds no broker.
unfoldable pub publish_main :
    (floats : Floats)
    → Pydantic
    → (ℕ → Draws floats)
    → List UserProfile
    → List MerchantProfile
    → Args
    → (ℕ → Bool)
    → Bool
    → ℕ
    → Outcome StartError (Option Run)
unfolding publish
publish_main floats py draws users merchants args interrupted connects fuel =
    elim (init users merchants) [
      | raised e ↦ raised (generator e)
      | returned gen ↦
          if connects
          then returned (publish floats py draws gen args interrupted fuel)
          else raised kafka_error
    ]

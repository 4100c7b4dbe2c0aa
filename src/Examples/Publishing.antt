-- ===== src/Examples/Publishing.antt =====
-- Runs of the generator: to the limit, to Ctrl+C, and to a clock that is set back.
use realtime_fraud_feature_s.Prelude.{
  ℕ, ◌≤◌, ◌≡◌, refl, true, false, Option, List, [], ◌∷◌, length, returned, raised, pos, arith, ◌==◌,
  text_eq, if◌then◌else◌, codes,
}
use realtime_fraud_feature_s.Fixtures.{toy_pydantic, toy_rupees, toy_random, toy_faker, seeding}
use realtime_fraud_feature_s.Schemas.{
  TransactionEvent, create, validation_error, stripped, upi, validated,
  validate_timestamp_not_future,
}
use realtime_fraud_feature_s.Generator.{
  schema, Draws, generate_one, generate_amount, quantize, pick_payment_method,
}
use realtime_fraud_feature_s.Generator.Events.{generate_one_lem}
use realtime_fraud_feature_s.Schemas.Accepts.{Conforms}
use realtime_fraud_feature_s.Python.{choices}
use realtime_fraud_feature_s.Generator.Batch.{TransactionGenerator, generate_batch}
use realtime_fraud_feature_s.Generator.Batch.Made.{AllGood}
use realtime_fraud_feature_s.Runner.{Args, reached}
use realtime_fraud_feature_s.Runner.Publish.{Run, publish, publish_main}
use realtime_fraud_feature_s.Runner.Publish.Ends.{Ends, publish_raised, publish_main-Ends}
use realtime_fraud_feature_s.Examples.Ingestion.{
  user, merchant, draws, rupees, amount_of, preferred, user-Fits,
}
use realtime_fraud_feature_s.Examples.History.{one_rupee, toy_Strips, in_range, users, merchants}

abbrev three : Args
three = record { rate = pos 10; firehose = false; max_events = pos 3 }

publish_main-Ends_example :
    (run : Option Run) × (es : List TransactionEvent) × (publish_main toy_rupees toy_pydantic
        (λ i. one_rupee)
        users
        merchants
        three
        (λ n. false)
        true
        4
      ≡ returned run)
    × Ends (returned tt) es run
    × (length es ≡ 3)
    × AllGood toy_rupees toy_pydantic (λ i. one_rupee) 0 es
publish_main-Ends_example =
    publish_main-Ends toy_rupees toy_pydantic (λ i. one_rupee) toy_random toy_faker (λ s. s) seeding
      three (λ n. false) true 2 4 toy_Strips (λ j. in_range) refl (λ k le. refl) refl (omega arith)

abbrev gen : TransactionGenerator
gen = record { users = user ∷ []; merchants = merchant ∷ []; merchants_by_category = [] }

-- The clock is set back while the second event is made.
abbrev set_back : ℕ → Draws toy_rupees
set_back n = if n == 0 then draws else record draws { later = 900 }

-- The first event of the run.
made :
    (e : TransactionEvent) × (generate_one toy_rupees toy_pydantic (user ∷ []) (merchant ∷ []) draws
      ≡ returned e)
    × Conforms toy_pydantic 1005 e
    × (e.user_id ≡ codes "u1")
    × (e.merchant_id ≡ codes "m1")
    × (e.amount ≡ rupees 500)
    × (100 ≤ e.amount.coefficient)
    × (e.payment_method ≡ upi)
made =
    generate_one_lem toy_rupees toy_pydantic draws user merchant (user ∷ []) (merchant ∷ [])
      (rupees 500) upi 117 refl refl refl amount_of preferred user-Fits (omega arith)

abbrev first_event : TransactionEvent
first_event = made.0

first_made : generate_batch toy_rupees toy_pydantic set_back gen 0 1 ≡ returned (first_event ∷ [])
unfolding generate_batch
first_made = rw (made.1) refl

abbrev unlimited : Args
unlimited = record { rate = pos 0; firehose = true; max_events = pos 0 }

second_refused :
    generate_one toy_rupees toy_pydantic gen.users gen.merchants (set_back 1)
    ≡ raised (schema validation_error)
unfolding generate_one generate_amount quantize choices pick_payment_method text_eq create validated
    validate_timestamp_not_future stripped
second_refused = refl

publish_raised_example :
    Ends
      (raised (schema validation_error))
      (first_event ∷ [])
      (publish toy_rupees toy_pydantic set_back gen unlimited (λ n. false) 2)
unfolding reached
publish_raised_example =
    publish_raised toy_rupees toy_pydantic set_back gen unlimited (λ n. false) 1 2
      (first_event ∷ []) (schema validation_error) first_made second_refused (λ k le. refl)
      (λ k le. refl) (omega arith)

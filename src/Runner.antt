-- ===== src/Runner.antt =====
-- ingestion/transaction_generator/src/run.py: the loop of `main` and what follows it. A run is
-- told by what it does to the producer.
pub mod Limit
pub mod Publish
use realtime_fraud_feature_s.Prelude.{
  ℕ, zero, suc, ◌+◌, ◌%◌, ◌≡◌, Bool, true, false, ◌&&◌, Option, none, some, List, [], ◌∷◌, ◌++◌,
  ltb, leb, ◌==◌, if◌then◌else◌, ℤ, pos, negsuc,
}

abbrev pub print_every : ℕ
print_every = 50

-- What the loop does: it sends a generated event, flushes at a progress line, sleeps.
pub data Action : Type 0 where
  send flush sleep close : Action

pub record Args : Type 0 where
  pub rate : ℤ
  pub firehose : Bool
  pub max_events : ℤ

abbrev pub is_positive : ℤ → Bool
is_positive (pos zero) = false
is_positive (pos (suc n)) = true
is_positive (negsuc n) = false

-- args.max_events > 0 and total_sent >= args.max_events
unfoldable pub reached : ℤ → ℕ → Bool
reached (pos zero) total_sent = false
reached (pos (suc n)) total_sent = leb (suc n) total_sent
reached (negsuc n) total_sent = false

-- if total_sent % PRINT_EVERY == 0: ... producer.flush()
abbrev pub progress : ℕ → List Action
progress total_sent = if total_sent % print_every == 0 then flush ∷ [] else []

-- if not args.firehose and delay > 0: time.sleep(delay)
abbrev pub pause : Args → List Action
pause args = elim args.firehose [
  | true ↦ []
  | false ↦ if is_positive args.rate then sleep ∷ [] else []
]

-- A turn that goes on to the next one.
unfoldable pub resume : Args → ℕ → Option (List Action) → Option (List Action)
resume args total_sent none = none
resume args total_sent (some rest) = some (send ∷ (progress total_sent ++ (pause args ++ rest)))

-- The loop on fuel, `none` when it runs out. `interrupted n` says that Ctrl+C comes before the
-- event after `n` events.
unfoldable pub loop : ℕ → Args → (ℕ → Bool) → ℕ → Option (List Action)
loop zero args interrupted total_sent = none
loop (suc fuel) args interrupted total_sent = elim (interrupted total_sent) [
  | true ↦ some []
  | false ↦ elim (reached args.max_events (total_sent + 1)) [
    | true ↦ some (send ∷ [])
    | false ↦ resume args (total_sent + 1) (loop fuel args interrupted (total_sent + 1))
  ]
]

abbrev pub closing : List Action
closing = flush ∷ flush ∷ close ∷ []

-- `finally`, with `close`, which flushes first
abbrev pub finish : Option (List Action) → Option (List Action)
finish none = none
finish (some actions) = some (actions ++ closing)

unfoldable pub main : ℕ → Args → (ℕ → Bool) → Option (List Action)
unfolding loop
main fuel args interrupted = finish (loop fuel args interrupted 0)

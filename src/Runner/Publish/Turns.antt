-- ===== src/Runner/Publish/Turns.antt =====
-- Turns of the loop that do not end it.
use realtime_fraud_feature_s.Prelude.{
  ℕ, zero, suc, ◌+◌, ◌≤◌, ◌<◌, ◌≡◌, refl, sym, ap, ◌∙◌, Bool, true, false, Option, none, some, List,
  [], ◌∷◌, ◌++◌, map, Outcome, returned, raised, >>=-returned, returned-injective, arith,
}
use mathlib.Core.List.{append_assoc}
use realtime_fraud_feature_s.Schemas.{TransactionEvent, Pydantic}
use realtime_fraud_feature_s.Generator.{GeneratorError, Floats, Draws, generate_one}
use realtime_fraud_feature_s.Generator.Batch.{TransactionGenerator, generate_batch}
use realtime_fraud_feature_s.Runner.{Action, Args, reached, progress, pause}
use realtime_fraud_feature_s.Runner.Publish.{Deed, sends, acts, Run, before_run, turn, publish_loop}

-- The events that are sent, in order.
abbrev pub events : List Deed → List TransactionEvent
events [] = []
events (sends e ∷ deeds) = e ∷ events deeds
events (acts a ∷ deeds) = events deeds

pub events-append : (xs ys : List Deed) → events (xs ++ ys) ≡ events xs ++ events ys
events-append [] ys = refl
events-append (sends e ∷ xs) ys = ap (◌∷◌ e) (events-append xs ys)
events-append (acts a ∷ xs) ys = events-append xs ys

pub events-acts : (as' : List Action) → events (map acts as') ≡ []
events-acts [] = refl
events-acts (a ∷ as') = events-acts as'

before_run-nil : (o : Option Run) → before_run [] o ≡ o
before_run-nil none = refl
before_run-nil (some (o, deeds)) = refl

before_run_assoc :
    (xs ys : List Deed) (o : Option Run) → before_run xs (before_run ys o) ≡ before_run (xs ++ ys) o
before_run_assoc xs ys none = refl
before_run_assoc xs ys (some (o, deeds)) = ap (λ l. some (o, l)) (sym (append_assoc xs ys deeds))

module _ (floats : Floats) (py : Pydantic) (draws : ℕ → Draws floats) (gen : TransactionGenerator)
    (args : Args) (interrupted : ℕ → Bool) where
  abbrev loop : ℕ → ℕ → Option Run
  loop = publish_loop floats py draws gen args interrupted

  abbrev made : ℕ → Outcome GeneratorError TransactionEvent
  made i = generate_one floats py gen.users gen.merchants (draws i)

  loop-turn :
      (fuel i : ℕ) (e : TransactionEvent)
      → interrupted i ≡ false
      → made i ≡ returned e
      → reached args.max_events (i + 1) ≡ false
      → loop (suc fuel) i ≡ before_run (turn args e (i + 1)) (loop fuel (i + 1))
  unfolding publish_loop
  loop-turn fuel i e calm event on = rw (publish_loop, calm, publish_loop, event, publish_loop, on)

  pub loop_interrupted :
      (fuel i : ℕ) → interrupted i ≡ true → loop (suc fuel) i ≡ some (returned tt, [])
  unfolding publish_loop
  loop_interrupted fuel i h = ground arith

  pub loop_raised :
      (fuel i : ℕ) (e : GeneratorError)
      → interrupted i ≡ false
      → made i ≡ raised e
      → loop (suc fuel) i ≡ some (raised e, [])
  unfolding publish_loop
  loop_raised fuel i e calm stop = ground arith

  pub loop_last :
      (fuel i : ℕ) (e : TransactionEvent)
      → interrupted i ≡ false
      → made i ≡ returned e
      → reached args.max_events (i + 1) ≡ true
      → loop (suc fuel) i ≡ some (returned tt, sends e ∷ [])
  unfolding publish_loop
  loop_last fuel i e calm event off = ground arith

  -- Turns that nothing ends send the events of a batch.
  pub loop_turns :
      (n i fuel : ℕ) (es : List TransactionEvent)
      → generate_batch floats py draws gen i n ≡ returned es
      → ((k : ℕ) → k < i + n → interrupted k ≡ false)
      → ((k : ℕ) → k ≤ i + n → reached args.max_events k ≡ false)
      → (deeds : List Deed) × (events deeds ≡ es)
        × (loop (n + fuel) i ≡ before_run deeds (loop fuel (i + n)))
  unfolding generate_batch
  loop_turns zero i fuel es h calm on =
      let none_more : zero + fuel ≡ fuel = omega arith in
      let same : i + zero ≡ i = omega arith in
      ([], returned-injective h, rw (none_more, same) (sym (before_run-nil (loop fuel i))))
  loop_turns (suc n) i fuel es h calm on =
      let (e, first, h1) = >>=-returned (made i) _ h in
      let (rest, others, h2) = >>=-returned (generate_batch floats py draws gen (i + 1) n) _ h1 in
      let (deeds, sent, later) =
        loop_turns n (i + 1) fuel rest others (λ k lt. calm k (omega arith))
          (λ k le. on k (omega arith)) in
      let others_acts = map acts (progress (i + 1) ++ pause args) in
      let silent : events others_acts ≡ [] = events-acts (progress (i + 1) ++ pause args) in
      let joined : events (others_acts ++ deeds) ≡ events deeds =
        events-append others_acts deeds ∙ ap (λ l. l ++ events deeds) silent in
      let one_more : suc n + fuel ≡ suc (n + fuel) = omega arith in
      let moved : i + suc n ≡ (i + 1) + n = omega arith in
      (
        turn args e (i + 1) ++ deeds,
        ap (◌∷◌ e) (joined ∙ sent) ∙ returned-injective h2,
        rw (one_more, moved)
            (loop-turn (n + fuel) i e (calm i (omega arith)) first (on (i + 1) (omega arith))
              ∙ ap (before_run (turn args e (i + 1))) later
              ∙ before_run_assoc (turn args e (i + 1)) deeds (loop fuel ((i + 1) + n))),
      )

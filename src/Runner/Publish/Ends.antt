-- ===== src/Runner/Publish/Ends.antt =====
-- The three ways in which a run ends, and what it has sent by then.
use realtime_fraud_feature_s.Prelude.{
  ℕ, suc, ◌+◌, ◌-◌, ◌≤◌, ◌<◌, ◌≡◌, refl, sym, ap, ◌∙◌, Bool, true, false, Option, none, some, List,
  [], ◌∷◌, ◌++◌, map, length, Text, Outcome, returned, raised, >>=-returned, returned-injective,
  pos, arith,
}
use mathlib.Core.List.{append-nil}
use realtime_fraud_feature_s.Python.{Random, FakerLibrary, Outside}
use realtime_fraud_feature_s.Schemas.{TransactionEvent, Pydantic}
use realtime_fraud_feature_s.Profiles.{post_init}
use realtime_fraud_feature_s.Generator.{GeneratorError, Floats, Draws, generate_one}
use realtime_fraud_feature_s.Generator.Batch.{TransactionGenerator, generate_batch}
use realtime_fraud_feature_s.Generator.Batch.Parts.{generate_batch-add}
use realtime_fraud_feature_s.Generator.Batch.Seeded.{seeded-AllGood}
use realtime_fraud_feature_s.Generator.Batch.Made.{Strips, InRange, AllGood}
use realtime_fraud_feature_s.SeedReference.{num_users, num_merchants, seed}
use realtime_fraud_feature_s.Runner.{Args, reached, closing}
use realtime_fraud_feature_s.Runner.Limit.{reached_below, reached_at}
use realtime_fraud_feature_s.Runner.Publish.{
  Deed, sends, acts, Run, before_run, finally, publish_loop, publish, main_users, main_merchants,
  publish_main,
}
use realtime_fraud_feature_s.Runner.Publish.Turns.{
  events, events-append, loop_interrupted, loop_raised, loop_last, loop_turns,
}

-- The run is over, as `o` says. It has sent these events, in this order, and then flushed twice and
-- closed the producer.
abbrev pub Ends : Outcome GeneratorError (Unit {0}) → List TransactionEvent → Option Run → Type 0
Ends o es none = ⊥
Ends o es (some (result, deeds)) =
    (result ≡ o)
    × (before : List Deed) × (deeds ≡ before ++ map acts closing)
    × (events before ≡ es)

finally-Ends :
    (o : Outcome GeneratorError (Unit {0})) (before last : List Deed)
    (es xs ys : List TransactionEvent) (run : Option Run)
    → events before ≡ xs
    → events last ≡ ys
    → es ≡ xs ++ ys
    → run ≡ finally (before_run before (some (o, last)))
    → Ends o es run
finally-Ends o before last es xs ys run h k parts same =
    rw (same, parts) (refl, before ++ last, refl, events-append before last ∙ rw (h, k) refl)

module _ (floats : Floats) (py : Pydantic) (draws : ℕ → Draws floats) (gen : TransactionGenerator)
    (args : Args) (interrupted : ℕ → Bool) where
  abbrev batch : ℕ → ℕ → Outcome GeneratorError (List TransactionEvent)
  batch = generate_batch floats py draws gen

  -- After `stop` turns the loop goes on like this.
  after_turns :
      (stop fuel : ℕ) (es : List TransactionEvent) (rest : Option Run)
      → batch 0 stop ≡ returned es
      → ((k : ℕ) → k < stop → interrupted k ≡ false)
      → ((k : ℕ) → k ≤ stop → reached args.max_events k ≡ false)
      → stop < fuel
      → ((left : ℕ) → publish_loop floats py draws gen args interrupted (suc left) stop ≡ rest)
      → (deeds : List Deed) × (events deeds ≡ es)
        × (publish floats py draws gen args interrupted fuel ≡ finally (before_run deeds rest))
  unfolding publish
  after_turns stop fuel es rest h calm on f step =
      let (deeds, sent, loop) =
        loop_turns floats py draws gen args interrupted stop 0 (suc (fuel - suc stop)) es h
          (λ k lt. calm k (omega arith)) (λ k le. on k (omega arith)) in
      let all : stop + suc (fuel - suc stop) ≡ fuel = omega arith in
      let here : 0 + stop ≡ stop = omega arith in
      (
        deeds,
        sent,
        ap finally (rw (all, here) at loop ∙ ap (before_run deeds) (step (fuel - suc stop))),
      )

  -- Ctrl+C after `stop` events, of which none reached the limit.
  pub publish_interrupted :
      (stop fuel : ℕ) (es : List TransactionEvent)
      → batch 0 stop ≡ returned es
      → ((k : ℕ) → k < stop → interrupted k ≡ false)
      → ((k : ℕ) → k ≤ stop → reached args.max_events k ≡ false)
      → interrupted stop ≡ true
      → stop < fuel
      → Ends (returned tt) es (publish floats py draws gen args interrupted fuel)
  publish_interrupted stop fuel es h calm on i f =
      let (deeds, sent, same) =
        after_turns stop fuel es (some (returned tt, [])) h calm on f
          (λ left. loop_interrupted floats py draws gen args interrupted left stop i) in
      finally-Ends (returned tt) deeds [] es es [] _ sent refl (sym (append-nil es)) same

  -- An exception of the generator after `stop` events ends the run, but the producer is flushed and
  -- closed, so that the events before it are delivered or reported as failed.
  pub publish_raised :
      (stop fuel : ℕ) (es : List TransactionEvent) (e : GeneratorError)
      → batch 0 stop ≡ returned es
      → generate_one floats py gen.users gen.merchants (draws stop) ≡ raised e
      → ((k : ℕ) → k ≤ stop → interrupted k ≡ false)
      → ((k : ℕ) → k ≤ stop → reached args.max_events k ≡ false)
      → stop < fuel
      → Ends (raised e) es (publish floats py draws gen args interrupted fuel)
  publish_raised stop fuel es e h bad calm on f =
      let (deeds, sent, same) =
        after_turns stop fuel es (some (raised e, [])) h (λ k lt. calm k (omega arith)) on f
          (λ left.
            loop_raised floats py draws gen args interrupted left stop e (calm stop (omega arith))
              bad) in
      finally-Ends (raised e) deeds [] es es [] _ sent refl (sym (append-nil es)) same

  batch_one :
      (i : ℕ) (ys : List TransactionEvent)
      → batch i 1 ≡ returned ys
      → (e : TransactionEvent) × (generate_one floats py gen.users gen.merchants (draws i)
          ≡ returned e)
        × (e ∷ [] ≡ ys)
  unfolding generate_batch
  batch_one i ys h =
      let (e, made, rest) =
        >>=-returned (generate_one floats py gen.users gen.merchants (draws i)) _ h in
      (e, made, returned-injective rest)

  -- The limit.
  pub publish_to_limit :
      (m fuel : ℕ) (es : List TransactionEvent)
      → args.max_events ≡ pos (suc m)
      → batch 0 (suc m) ≡ returned es
      → ((k : ℕ) → k ≤ m → interrupted k ≡ false)
      → m < fuel
      → Ends (returned tt) es (publish floats py draws gen args interrupted fuel)
  publish_to_limit m fuel es limit h calm f =
      let split : suc m ≡ m + 1 = omega arith in
      let (xs, ys, front, back, parts) =
        generate_batch-add floats py draws gen 0 m 1 es (rw (split) at h) in
      let here : 0 + m ≡ m = omega arith in
      let (e, made, one) = batch_one m ys (rw (here) at back) in
      let (deeds, sent, same) =
        after_turns m fuel xs (some (returned tt, sends e ∷ [])) front
          (λ k lt. calm k (omega arith)) (λ k le. rw (limit) (reached_below m k (omega arith))) f
          (λ left.
            loop_last floats py draws gen args interrupted left m e (calm m (omega arith)) made
              (rw (limit, ← split) (reached_at m))) in
      finally-Ends (returned tt) deeds (sends e ∷ []) es xs ys _ sent one parts same

module _ (floats : Floats) (py : Pydantic) (draws : ℕ → Draws floats) (rnd : Random)
    (fk : FakerLibrary) (sha256 : Text → Text) (outside : Outside rnd fk) where
  -- On the profiles that `main` makes, with draws in their ranges, a clock that does not go back while
  -- an event is made, an amount for every spend (one of at most 28 digits), a Kafka producer that
  -- could be made, a positive `--max-events` and no Ctrl+C before the last event, fuel for one turn
  -- more than the events suffices for the run to end without an exception. It has sent exactly that many events, in the order in which they were
  -- made, all of which conform to the schema and are of one rupee or more, and has then flushed and
  -- closed the producer.
  pub publish_main-Ends :
      let users = (main_users rnd fk sha256 outside).0 in
      let merchants = (main_merchants rnd fk sha256 outside).0 in
      (args : Args) (interrupted : ℕ → Bool) (connects : Bool) (m fuel : ℕ)
      → Strips py
      → ((j : ℕ) → InRange floats py users merchants (draws j))
      → args.max_events ≡ pos (suc m)
      → ((k : ℕ) → k ≤ m → interrupted k ≡ false)
      → connects ≡ true
      → m < fuel
      → (run : Option Run) × (es : List TransactionEvent) × (publish_main floats py draws users
            merchants args interrupted connects fuel
          ≡ returned run)
        × Ends (returned tt) es run
        × (length es ≡ suc m)
        × AllGood floats py draws 0 es
  unfolding publish_main
  publish_main-Ends args interrupted connects m fuel strips range limit calm made_one f =
      let (gen, made, batches) =
        seeded-AllGood floats py draws rnd fk sha256 outside num_users num_merchants
          (post_init rnd fk sha256 outside (some seed)) (omega arith) (omega arith) strips range in
      let (es, batch, count, good) = batches (suc m) in
      (
        publish floats py draws gen args interrupted fuel,
        es,
        rw (publish_main, made, made_one) refl,
        publish_to_limit floats py draws gen args interrupted m fuel es limit batch calm f,
        count,
        good,
      )

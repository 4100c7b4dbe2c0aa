-- ===== src/Runner/Limit.antt =====
-- How many events a run sends.
use native.Mathlib.Decide.{dec_lt}
use realtime_fraud_feature_s.Prelude.{
  ℕ, zero, suc, ◌+◌, ◌≤◌, ◌<◌, ◌≡◌, refl, ap, ◌∙◌, Bool, true, false, Option, none, some, List, [],
  ◌∷◌, ◌++◌, pos, arith,
}
use realtime_fraud_feature_s.Runner.{
  Action, send, flush, sleep, close, Args, reached, progress, pause, resume, loop, closing, finish,
  main,
}

abbrev pub sends : List Action → ℕ
sends [] = 0
sends (send ∷ actions) = suc (sends actions)
sends (_ ∷ actions) = sends actions

sends-append : (xs ys : List Action) → sends (xs ++ ys) ≡ sends xs + sends ys
sends-append [] ys = omega arith
sends-append (send ∷ xs) ys = omega (arith, sends-append xs ys)
sends-append (flush ∷ xs) ys = sends-append xs ys
sends-append (sleep ∷ xs) ys = sends-append xs ys
sends-append (close ∷ xs) ys = sends-append xs ys

sends-progress : (n : ℕ) → sends (progress n) ≡ 0
sends-progress n = ground arith

sends-pause : (args : Args) → sends (pause args) ≡ 0
sends-pause args = ground arith

-- A turn that goes on.
sends-turn :
    (n : ℕ) (args : Args) (rest : List Action)
    → sends (send ∷ (progress n ++ (pause args ++ rest))) ≡ suc (sends rest)
sends-turn n args rest = omega (
  arith,
  sends-append (progress n) (pause args ++ rest),
  sends-append (pause args) rest,
  sends-progress n,
  sends-pause args,
)

-- The loop returns, after `k` events.
abbrev pub Sends : ℕ → Option (List Action) → Type 0
Sends k none = ⊥
Sends k (some actions) = sends actions ≡ k

-- The run returns, after `k` events, and at last flushes twice and closes the producer.
abbrev pub Finishes : ℕ → Option (List Action) → Type 0
Finishes k none = ⊥
Finishes k (some actions) =
    (before : List Action) × (actions ≡ before ++ closing) × (sends before ≡ k)

Sends-resume :
    (args : Args) (n k : ℕ) (o : Option (List Action)) → Sends k o → Sends (suc k) (resume args n o)
unfolding resume
Sends-resume args n k none h = h
Sends-resume args n k (some rest) h = sends-turn n args rest ∙ ap suc h

Sends-finish : (k : ℕ) (o : Option (List Action)) → Sends k o → Finishes k (finish o)
Sends-finish k none h = h
Sends-finish k (some actions) h = (actions, refl, h)

module _ (args : Args) (interrupted : ℕ → Bool) where
  loop_interrupted :
      (fuel total : ℕ) → interrupted total ≡ true → loop (suc fuel) args interrupted total ≡ some []
  unfolding loop
  loop_interrupted fuel total i = ground arith

  loop_last :
      (fuel total : ℕ)
      → interrupted total ≡ false
      → reached args.max_events (total + 1) ≡ true
      → loop (suc fuel) args interrupted total ≡ some (send ∷ [])
  unfolding loop
  loop_last fuel total i r = ground arith

  loop_turn :
      (fuel total : ℕ)
      → interrupted total ≡ false
      → reached args.max_events (total + 1) ≡ false
      → loop (suc fuel) args interrupted total
        ≡ resume args (total + 1) (loop fuel args interrupted (total + 1))
  unfolding loop
  loop_turn fuel total i r = ground arith

  -- Up to `stop` there is no Ctrl+C, and before it the limit is not reached.
  module _ (stop : ℕ) (calm : (n : ℕ) → n < stop → interrupted n ≡ false)
      (below : (n : ℕ) → n < stop → reached args.max_events n ≡ false) where
    loop_to_limit :
        reached args.max_events stop ≡ true
        → (fuel left total : ℕ) → left < fuel
        → total + suc left ≡ stop
        → Sends (suc left) (loop fuel args interrupted total)
    loop_to_limit r zero left total h t = absurd (omega arith)
    loop_to_limit r (suc fuel) zero total h t =
        let here : total + 1 ≡ stop = omega arith in
        rw (loop_last fuel total (calm total (omega arith)) (rw (← here) at r))
    loop_to_limit r (suc fuel) (suc left) total h t =
        rw (loop_turn fuel total (calm total (omega arith)) (below (total + 1) (omega arith))) (
          Sends-resume args (total + 1) (suc left) _
            (loop_to_limit r fuel left (total + 1) (omega arith) (omega arith)))

    loop_to_interrupt :
        reached args.max_events stop ≡ false
        → interrupted stop ≡ true
        → (fuel left total : ℕ) → left < fuel
        → total + left ≡ stop
        → Sends left (loop fuel args interrupted total)
    loop_to_interrupt r i zero left total h t = absurd (omega arith)
    loop_to_interrupt r i (suc fuel) zero total h t =
        let here : total ≡ stop = omega arith in rw (loop_interrupted fuel total (rw (← here) at i))
    loop_to_interrupt r i (suc fuel) (suc left) total h t =
        rw (loop_turn fuel total (calm total (omega arith)) (at_or_below (total + 1) (omega arith)))
          (Sends-resume args (total + 1) left _
            (loop_to_interrupt r i fuel left (total + 1) (omega arith) (omega arith)))
      where
        at_or_below : (n : ℕ) → n ≤ stop → reached args.max_events n ≡ false
        at_or_below n le = elim (dec_lt n stop) [
          | yes lt ↦ below n lt
          | no ge ↦ let same : n ≡ stop = omega arith in rw same r
        ]

pub reached_below : (m n : ℕ) → n < suc m → reached (pos (suc m)) n ≡ false
unfolding reached
reached_below m n h = ground arith

pub reached_at : (m : ℕ) → reached (pos (suc m)) (suc m) ≡ true
unfolding reached
reached_at m = ground arith

loop_endless :
    (args : Args) (interrupted : ℕ → Bool) (fuel total : ℕ)
    → ((n : ℕ) → reached args.max_events n ≡ false)
    → ((n : ℕ) → interrupted n ≡ false)
    → loop fuel args interrupted total ≡ none
unfolding loop resume
loop_endless args interrupted zero total below calm = refl
loop_endless args interrupted (suc fuel) total below calm =
    loop_turn args interrupted fuel total (calm total) (below (total + 1))
    ∙ rw (loop_endless args interrupted fuel (total + 1) below calm, resume)

-- With a positive `--max-events` and no Ctrl+C before that many events, fuel for one turn more
-- than the events suffices, and the run sends exactly that many and
-- ends with the flushes and the close.
pub main_to_limit :
    (args : Args) (interrupted : ℕ → Bool) (limit fuel : ℕ)
    → args.max_events ≡ pos limit
    → 0 < limit
    → ((n : ℕ) → n < limit → interrupted n ≡ false)
    → limit < fuel
    → Finishes limit (main fuel args interrupted)
unfolding main
main_to_limit args interrupted zero fuel e p calm f = absurd (omega arith)
main_to_limit args interrupted (suc m) fuel e p calm f = Sends-finish (suc m) _ (
    loop_to_limit args interrupted (suc m) calm (λ n lt. rw (e) (reached_below m n lt))
      (rw (e) (reached_at m)) fuel m 0 (omega arith) (omega arith))

-- Ctrl+C before a limit is reached, or without one, ends the run after the events sent so far;
-- the producer is flushed and closed all the same.
pub main_to_interrupt :
    (args : Args) (interrupted : ℕ → Bool) (stop fuel : ℕ)
    → ((n : ℕ) → n ≤ stop → reached args.max_events n ≡ false)
    → ((n : ℕ) → n < stop → interrupted n ≡ false)
    → interrupted stop ≡ true
    → stop < fuel
    → Finishes stop (main fuel args interrupted)
unfolding main
main_to_interrupt args interrupted stop fuel below calm i f = Sends-finish stop _ (
    loop_to_interrupt args interrupted stop calm (λ n lt. below n (omega arith))
      (below stop (omega arith)) i fuel stop 0 f (omega arith))

-- Without a limit and without Ctrl+C the loop never ends.
pub main_unlimited :
    (args : Args) (interrupted : ℕ → Bool) (fuel : ℕ)
    → ((n : ℕ) → reached args.max_events n ≡ false)
    → ((n : ℕ) → interrupted n ≡ false)
    → main fuel args interrupted ≡ none
unfolding main
main_unlimited args interrupted fuel below calm =
    rw (loop_endless args interrupted fuel 0 below calm)

-- ===== src/Bronze/Stream/Letters.antt =====
-- The dead letters under restarts.
use mathlib.Core.Option.{some-injective}
use mathlib.Core.List.{Subset, mem-append_left, mem-append_right, mem-append, not-mem-nil, Mem-prop}
use mathlib.Core.List.Perm
use mathlib.Core.Logic.Or
use realtime_fraud_feature_s.Prelude.{
  [], ℕ, ◌≤◌, ◌<◌, ◌≡◌, sym, ◌∙◌, true, Option, none, some, List, ◌++◌, inl, inr, Option-cases,
}
use realtime_fraud_feature_s.Bronze.{KafkaRecord, Spark, BronzeRow, DeadLetter, keep, run}
use realtime_fraud_feature_s.Bronze.Stream.{
  Offsets, below, between, Delta, Plan, Query, QueryStep, plans, adds, commits, breaks_off,
  restarts, write_dead_letters, Streams, first_start, Step, arrives, bronze_step, letters_step,
  Reach, here, next,
}
use realtime_fraud_feature_s.Bronze.Stream.Offsets.{Arrived, below-append, below-start}
use realtime_fraud_feature_s.Bronze.Stream.Sides.{
  rejected, rejected-between, run-rejected, IsAhead, IsAhead-append, IsAhead-fresh,
  QueryStep-IsAhead,
}

-- Where the planned batch ends, or the last one.
abbrev pub ends : {Time : Type 0} → Option (Plan Time) → Offsets → Offsets
ends none committed = committed
ends (some p) committed = p.to

Subset-append {ℓ} :
    {A : Type ℓ} {xs ys zs : List A} → Subset xs zs → Subset ys zs → Subset (xs ++ ys) zs
Subset-append {xs} {ys} {zs} f g a m = Or.elim Mem-prop (mem-append.0 m) (f a) (g a)

Subset-append_left {ℓ} :
    {A : Type ℓ} {xs ys : List A} (zs : List A) → Subset xs ys → Subset xs (ys ++ zs)
Subset-append_left zs f a m = mem-append_left zs (f a m)

module _ (spark : Spark) where
  open spark use {Time}

  abbrev LettersQuery : Type 0
  LettersQuery = Query (write_dead_letters spark)

  record IsLeast (n : ℕ) (log : ℕ → List (KafkaRecord Time)) (q : LettersQuery) : Type 0 where
    ahead : IsAhead (write_dead_letters spark) n log q
    least : Subset (rejected spark (below n log q.committed)) q.sink
    only : Subset q.sink (rejected spark (below n log (ends q.planned q.committed)))
    done :
        (p : Plan Time)
        → q.planned ≡ some p
        → q.added ≡ true
        → Subset (rejected spark (below n log p.to)) q.sink

  module _ (n : ℕ) (log : ℕ → List (KafkaRecord Time)) (q : LettersQuery) (p : Plan Time)
      (forward : (i : ℕ) → i < n → q.committed i ≤ p.to i) where
    abbrev batch : List (DeadLetter spark)
    batch = (run spark p.now (between n log q.committed p.to)).1

    further : Subset (rejected spark (below n log q.committed)) (rejected spark (below n log p.to))
    further a m =
        Perm.subset (rejected-between spark n log q.committed p.to forward) a (mem-append_left _ m)

    batch-Subset : Subset batch (rejected spark (below n log p.to))
    batch-Subset a m = Perm.subset (rejected-between spark n log q.committed p.to forward) a (
        mem-append_right (rejected spark (below n log q.committed))
          (rw (← run-rejected spark p.now (between n log q.committed p.to)) m))

    sent-Subset :
        (sent : List (DeadLetter spark))
        → Subset batch sent
        → Subset (rejected spark (below n log q.committed)) q.sink
        → Subset (rejected spark (below n log p.to)) (q.sink ++ sent)
    sent-Subset sent f least a m =
        Or.elim Mem-prop
          (mem-append.0
            (Perm.subset (Perm.symm (rejected-between spark n log q.committed p.to forward)) a m))
          (λ old. mem-append_left sent (least a old))
          (λ new.
            mem-append_right q.sink
              (f a (rw (run-rejected spark p.now (between n log q.committed p.to)) new)))

    only-sent :
        (sent : List (DeadLetter spark))
        → q.planned ≡ some p
        → Subset sent batch
        → Subset q.sink (rejected spark (below n log (ends q.planned q.committed)))
        → Subset (q.sink ++ sent) (rejected spark (below n log (ends q.planned q.committed)))
    only-sent sent e f only = Subset-append only (rw (e) (λ a m. batch-Subset a (f a m)))

  QueryStep-IsLeast :
      {n : ℕ} {log : ℕ → List (KafkaRecord Time)} {q r : LettersQuery}
      → QueryStep n log (write_dead_letters spark) q r
      → IsLeast n log q
      → IsLeast n log r
  QueryStep-IsLeast {n} {log} {q} (plans p free is_next) o = record {
    ahead = QueryStep-IsAhead (write_dead_letters spark) (plans p free is_next) o.ahead;
    least = o.least;
    only = λ a m. further n log q p is_next.forward a ((rw (free) at o.only) a m);
    done = λ p' e d. cc;
  }
  QueryStep-IsLeast {n} {log} {q} (adds p s e not_yet (sent, perm, did)) o = record {
    ahead =
        QueryStep-IsAhead (write_dead_letters spark) (adds p s e not_yet (sent, perm, did)) o.ahead;
    least = rw did (Subset-append_left sent o.least);
    only = rw did (only-sent n log q p (o.ahead.forward p e) sent e (Perm.subset perm) o.only);
    done = λ p' e' d.
        rw (did, some-injective _ _ (sym e' ∙ e))
          (sent-Subset n log q p (o.ahead.forward p e) sent (Perm.subset (Perm.symm perm)) o.least);
  }
  QueryStep-IsLeast (commits p e did) o = record {
    ahead = QueryStep-IsAhead (write_dead_letters spark) (commits p e did) o.ahead;
    least = o.done p e did;
    only = rw (e) at o.only;
    done = λ p' e' d. cc;
  }
  QueryStep-IsLeast {n} {log} {q} (breaks_off p s e not_yet (sent, part, did)) o = record {
    ahead =
        QueryStep-IsAhead (write_dead_letters spark) (breaks_off p s e not_yet (sent, part, did))
          o.ahead;
    least = rw did (Subset-append_left sent o.least);
    only = rw did (only-sent n log q p (o.ahead.forward p e) sent e part o.only);
    done = λ p' e' d. absurd (cc (not_yet, d));
  }
  QueryStep-IsLeast restarts o = record {
    ahead = QueryStep-IsAhead (write_dead_letters spark) restarts o.ahead;
    least = o.least;
    only = o.only;
    done = λ p' e' d. cc;
  }

  ends-Arrived :
      (n : ℕ) (log : ℕ → List (KafkaRecord Time)) (q : LettersQuery)
      → IsAhead (write_dead_letters spark) n log q
      → Arrived n log (ends q.planned q.committed)
  ends-Arrived n log q a = elim (Option-cases q.planned) [
    | inl free ↦ rw (free) a.committed
    | inr (p, e) ↦ rw (e) (a.planned p e)
  ]

  IsLeast-append :
      (n : ℕ) (log more : ℕ → List (KafkaRecord Time)) (q : LettersQuery)
      → IsLeast n log q
      → IsLeast n (λ p. log p ++ more p) q
  IsLeast-append n log more q o = record {
    ahead = IsAhead-append (write_dead_letters spark) n log more q o.ahead;
    least = rw (below-append n log more q.committed o.ahead.committed) o.least;
    only = rw (below-append n log more _ (ends-Arrived n log q o.ahead)) o.only;
    done = λ p e d. rw (below-append n log more p.to (o.ahead.planned p e)) (o.done p e d);
  }

  module _ (delta : Delta (BronzeRow spark)) where
    Step-IsLeast :
        (n : ℕ) {s t : Streams spark delta}
        → Step spark delta n s t
        → IsLeast n s.log s.letters
        → IsLeast n t.log t.letters
    Step-IsLeast n {s} (arrives more) o = IsLeast-append n s.log more s.letters o
    Step-IsLeast n (bronze_step step) o = o
    Step-IsLeast n (letters_step step) o = QueryStep-IsLeast step o

    Reach-IsLeast :
        (n : ℕ) {s t : Streams spark delta}
        → IsLeast n s.log s.letters
        → Reach spark delta n s t
        → IsLeast n t.log t.letters
    Reach-IsLeast n o here = o
    Reach-IsLeast n o (next path step) = Step-IsLeast n step (Reach-IsLeast n o path)

    first_start-IsLeast :
        (n : ℕ) (log : ℕ → List (KafkaRecord Time))
        → let s = first_start spark delta log in IsLeast n s.log s.letters
    unfolding keep
    first_start-IsLeast n log = record {
      ahead = IsAhead-fresh (write_dead_letters spark) n log [];
      least = λ a m. rw (below-start n log) at m;
      only = λ a m. absurd (not-mem-nil m);
      done = λ p e d. cc;
    }

    -- However often the job is stopped and started again, every record of the batches that are
    -- committed that is not valid is among the dead letters, at least once, and there is no dead
    -- letter that is not such a record of a batch that is committed or planned.
    pub Reach-letters :
        (n : ℕ) (log : ℕ → List (KafkaRecord Time)) (s : Streams spark delta)
        → Reach spark delta n (first_start spark delta log) s
        → Subset (rejected spark (below n s.log s.letters.committed)) s.letters.sink
          × Subset s.letters.sink
              (rejected spark (below n s.log (ends s.letters.planned s.letters.committed)))
    Reach-letters n log s path =
        let o = Reach-IsLeast n (first_start-IsLeast n log) path in (o.least, o.only)

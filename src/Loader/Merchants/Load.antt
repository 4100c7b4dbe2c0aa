-- ===== src/Loader/Merchants/Load.antt =====
-- The merchant load at every key, and at the `merchant:latest` keys.
use native.Mathlib.Nat.{le_trans, le_refl}
use realtime_fraud_feature_s.Prelude.{
  ℕ, ◌+◌, ◌≤◌, ◌≡◌, refl, sym, ap, ◌∙◌, Option, none, some, false, List, [], ◌∷◌, ◌++◌, map, Text,
  codes, length, text_eq, text_eq-append_left, text_eq_iff, get, put-IsDict, IsDict, Outcome,
  returned, raised, arith, if◌then◌else◌,
}
use realtime_fraud_feature_s.Python.{Runtime}
use realtime_fraud_feature_s.Redis.{Redis}
use realtime_fraud_feature_s.Redis.Session.{
  Session, Write, write, view, last_write, or_else, Written, Written-trans, Written-earlier,
  write-Written,
}
use realtime_fraud_feature_s.Loader.Rows.{
  LoadError, Row, Yields, done, yield, turn, Rises, turn-Written, executed-turn, last_execute_lem,
  view-pipeline, user_ttl_seconds,
}
use realtime_fraud_feature_s.Loader.Merchants.{
  Stat, Latest, note_latest, stat_write, stats_key, latest_key, latest_writes, stat_of,
  merchants_loop, write_all, after_loop, load_merchant_stats,
}
use realtime_fraud_feature_s.Loader.Merchants.Latest.{latest_of, IsLatestOf, latest_of-IsLatestOf}

or_else_assoc : (a b c : Option Write) → or_else a (or_else b c) ≡ or_else (or_else a b) c
or_else_assoc none b c = refl
or_else_assoc (some w) b c = refl

or_else-none : (a : Option Write) → or_else a none ≡ a
or_else-none none = refl
or_else-none (some w) = refl

pub last_write-append :
    (k : Text) (xs ys : List Write)
    → last_write k (xs ++ ys) ≡ or_else (last_write k ys) (last_write k xs)
unfolding last_write
last_write-append k [] ys = elim (last_write k ys) as (λ o. o ≡ or_else o none) [
  | none ↦ refl
  | some w ↦ refl
]
last_write-append k (x ∷ xs) ys = rw (last_write-append k xs ys) (
    sym (
      or_else_assoc (last_write k ys) (last_write k xs) (if text_eq x.key k then some x else none)))

note_latest-IsDict : (s : Stat) (latest : Latest) → IsDict latest → IsDict (note_latest s latest)
unfolding note_latest
note_latest-IsDict s latest d =
    ground (arith, put-IsDict s.merchant_id (s.event_date, s.value) latest d)

latest_of-IsDict :
    (stats : List Stat) (latest : Latest) → IsDict latest → IsDict (latest_of stats latest)
unfolding latest_of
latest_of-IsDict [] latest d = d
latest_of-IsDict (s ∷ stats) latest d =
    latest_of-IsDict stats (note_latest s latest) (note_latest-IsDict s latest d)

-- The write of a merchant's item of `latest`.
abbrev pub latest_write : Text → Option (Text × Text) → Option Write
latest_write m none = none
latest_write m (some (date, value)) =
    some (record { key = latest_key m; value = value; ttl = user_ttl_seconds })

latest_key-eq : (j m : Text) → text_eq (latest_key j) (latest_key m) ≡ text_eq j m
unfolding latest_key
latest_key-eq j m = text_eq-append_left (codes "merchant:latest:") j m

last_write-latest_writes :
    (m : Text) (latest : Latest)
    → IsDict latest
    → last_write (latest_key m) (latest_writes latest) ≡ latest_write m (get m latest)
unfolding last_write latest_writes get
last_write-latest_writes m [] d = refl
last_write-latest_writes m ((j, (date, value)) ∷ latest) (new, d) =
    rw (latest_key-eq j m, last_write-latest_writes m latest d) (ground (arith, text_eq_iff j m))

-- No key of a day's statistics is a `merchant:latest` key.
pub stats_key-ne-latest_key :
    (m : Text) (s : Stat) → text_eq (stat_write s).key (latest_key m) ≡ false
unfolding stat_write stats_key latest_key text_eq
stats_key-ne-latest_key m s = refl

last_write-stat_writes :
    (m : Text) (stats : List Stat) → last_write (latest_key m) (map stat_write stats) ≡ none
unfolding last_write
last_write-stat_writes m [] = refl
last_write-stat_writes m (s ∷ stats) =
    rw (last_write-stat_writes m stats, stats_key-ne-latest_key m s)

-- All the writes of a load: each row's day, and then each merchant's latest day.
abbrev pub all_writes : List Stat → List Write
all_writes ss = map stat_write ss ++ latest_writes (latest_of ss [])

module _ (r : Redis) (clock : ℕ → ℕ) where
  executed-write_all :
      (ws : List Write) (t : Session r clock) → (write_all r clock ws t).executed ≡ t.executed
  unfolding write_all write
  executed-write_all [] t = refl
  executed-write_all (w ∷ ws) t = executed-write_all ws (write r clock w t)

  write_all_lem :
      (ws : List Write) (t : Session r clock) (k : Text)
      → Written
          (clock t.executed)
          (r.entry (view r clock t) k)
          (last_write k ws)
          (r.entry (view r clock (write_all r clock ws t)) k)
  unfolding write_all last_write write
  write_all_lem [] t k = refl
  write_all_lem (w ∷ ws) t k =
      Written-trans _ _ _ _ (if text_eq w.key k then some w else none) (last_write k ws)
        (write-Written r clock w t k) (write_all_lem ws (write r clock w t) k)

  -- What follows the loop sends the loop's last commands and those of `latest`.
  after_loop_lem :
      (p : Outcome LoadError (ℕ × Latest) × Session r clock) (n : ℕ) (latest : Latest)
      → p.0 ≡ returned (n, latest)
      → ((after_loop r clock p).0 ≡ returned n)
        × ((after_loop r clock p).1.store
            ≡ view r clock (write_all r clock (latest_writes latest) p.1))
  unfolding after_loop
  after_loop_lem (raised e, t) n latest h = cc
  after_loop_lem (returned (m, l), t) n latest h =
      let count : m ≡ n = ground arith in
      let final : l ≡ latest = ground arith in
      let (o, sent) =
        last_execute_lem r clock (returned m, write_all r clock (latest_writes l) t) m refl in
      (
        o ∙ ap returned count,
        sent ∙ ap (λ d. view r clock (write_all r clock (latest_writes d) t)) final,
      )

module _ (rt : Runtime) (r : Redis) (clock : ℕ → ℕ) (rises : Rises clock)
    (columns : List Text) where
  merchants_loop_lem :
      {rows : List Row} {ss : List Stat}
      → Yields (stat_of rt columns) rows ss
      → (loaded : ℕ) (latest : Latest) (t : Session r clock)
      → let (o, t') = merchants_loop rt r clock columns rows loaded latest t in
        (o ≡ returned (loaded + length rows, latest_of ss latest))
        × (t.executed ≤ t'.executed)
        × ((k : Text)
            → Written
                (clock t.executed)
                (r.entry (view r clock t) k)
                (last_write k (map stat_write ss))
                (r.entry (view r clock t') k))
  unfolding merchants_loop last_write latest_of
  merchants_loop_lem done loaded latest t =
      (ap (λ n. returned (n, latest)) (omega arith), le_refl _, λ k. refl)
  merchants_loop_lem (yield {b = s} {bs} e rest) loaded latest t =
      let w = stat_write s in
      let (result, later, written) =
        merchants_loop_lem rest (loaded + 1) (note_latest s latest)
          (turn r clock w (loaded + 1) t) in
      rw (e, merchants_loop)
        (
          result ∙ ap (λ n. returned (n, latest_of bs (note_latest s latest))) (omega arith),
          le_trans (executed-turn r clock w (loaded + 1) t) later,
          λ k. turn-Written r clock rises w (loaded + 1) t k _ _ (written k),
        )

  -- When every row has its merchant and date, the load returns the number of rows, and at every
  -- key of the store the last of its writes has left its JSON with its time to live.
  pub load_merchant_stats_lem :
      {rows : List Row} {ss : List Stat}
      → Yields (stat_of rt columns) rows ss
      → (t : Session r clock)
      → let (o, t') = load_merchant_stats rt r clock columns rows t in
        (o ≡ returned (length rows))
        × ((k : Text)
            → Written
                (clock t.executed)
                (r.entry t.store k)
                (last_write k (all_writes ss))
                (r.entry t'.store k))
  unfolding load_merchant_stats
  load_merchant_stats_lem {rows} {ss} y t =
      let t0 : Session r clock = record t { pipe = r.pipeline } in
      let (result, later, written) = merchants_loop_lem y 0 [] t0 in
      let t1 = (merchants_loop rt r clock columns rows 0 [] t0).1 in
      let items = latest_writes (latest_of ss []) in
      let (o, sent) = after_loop_lem r clock _ _ _ result in
      (
        o ∙ ap returned (omega arith),
        λ k.
            rw (sent, last_write-append)
              (Written-trans _ _ _ _ (last_write k (map stat_write ss)) (last_write k items)
                (rw (view-pipeline r clock t) at (written k))
                (Written-earlier _ _ _ _ (last_write k items) (rises _ _ later)
                  (write_all_lem r clock items t1 k))),
      )

  -- After a load, a merchant's `merchant:latest` key holds the JSON of one of its rows, none of
  -- which has a later date, for 24 hours at least; with no row of the merchant it is as it was.
  pub load_merchant_stats-latest :
      {rows : List Row} {ss : List Stat}
      → Yields (stat_of rt columns) rows ss
      → (t : Session r clock) (m : Text)
      → (o : Option (Text × Text)) × IsLatestOf m ss o
        × Written
            (clock t.executed)
            (r.entry t.store (latest_key m))
            (latest_write m o)
            (r.entry (load_merchant_stats rt r clock columns rows t).1.store (latest_key m))
  unfolding get
  load_merchant_stats-latest {rows} {ss} y t m = (
    get m (latest_of ss []),
    latest_of-IsLatestOf m ss,
    rw
        (
          last_write-append,
          last_write-stat_writes m ss,
          last_write-latest_writes m (latest_of ss []) (latest_of-IsDict ss [] tt),
          or_else-none,
        )
        at ((load_merchant_stats_lem y t).1 (latest_key m)),
  )

-- ===== src/Loader/Merchants.antt =====
-- `load_merchant_stats` of feature_store/src/loader.py
pub mod Latest
pub mod Load
use realtime_fraud_feature_s.Prelude.{
  ℕ, ◌+◌, Option, none, some, Bool, true, List, [], ◌∷◌, ◌++◌, Text, codes, text_lt, Dict, get, put,
  Outcome, returned, raised, ◌>>=◌, if◌then◌else◌,
}
use realtime_fraud_feature_s.Python.{PgValue, Runtime}
use realtime_fraud_feature_s.Redis.{Redis}
use realtime_fraud_feature_s.Redis.Session.{Session, Write, write}
use realtime_fraud_feature_s.Loader.Rows.{
  LoadError, Row, record_of, field, dump, user_ttl_seconds, merchant_ttl_seconds, turn,
  last_execute,
}

-- The loop's variables for one row.
pub record Stat : Type 0 where
  pub merchant_id : Text
  pub event_date : Text
  pub value : Text

unfoldable pub stats_key : Text → Text → Text
stats_key merchant_id event_date =
    codes "merchant:stats:" ++ (merchant_id ++ (codes ":" ++ event_date))

unfoldable pub latest_key : Text → Text
latest_key merchant_id = codes "merchant:latest:" ++ merchant_id

unfoldable pub stat_write : Stat → Write
stat_write s = record {
  key = stats_key s.merchant_id s.event_date;
  value = s.value;
  ttl = merchant_ttl_seconds;
}

-- `latest`: for each merchant the greatest date so far, with its value
abbrev pub Latest : Type 0
Latest = Dict (Text × Text)

-- merchant_id not in latest or event_date > latest[merchant_id][0]
unfoldable pub is_newer : Text → Option (Text × Text) → Bool
is_newer event_date none = true
is_newer event_date (some (date, _)) = text_lt date event_date

-- `latest` is keyed by the merchant id, a text that is its own `str`; NULL as an id is left out.
unfoldable pub note_latest : Stat → Latest → Latest
unfolding is_newer
note_latest s latest =
    if is_newer s.event_date (get s.merchant_id latest)
    then put s.merchant_id (s.event_date, s.value) latest
    else latest

-- The body of the loop over `latest.items()`.
unfoldable pub latest_writes : Latest → List Write
latest_writes [] = []
latest_writes ((merchant_id, (_, value)) ∷ latest) =
    record { key = latest_key merchant_id; value = value; ttl = user_ttl_seconds }
    ∷ latest_writes latest

module _ (r : Redis) (clock : ℕ → ℕ) where
  -- The loop over `latest.items()`, which executes nothing itself.
  unfoldable pub write_all : List Write → Session r clock → Session r clock
  write_all [] t = t
  write_all (w ∷ ws) t = write_all ws (write r clock w t)

  unfoldable pub after_loop :
      Outcome LoadError (ℕ × Latest) × Session r clock → Outcome LoadError ℕ × Session r clock
  after_loop (raised e, t) = (raised e, t)
  after_loop (returned (loaded, latest), t) =
      last_execute r clock (returned loaded, write_all (latest_writes latest) t)

module _ (rt : Runtime) where
  unfoldable pub stat_of : List Text → Row → Outcome LoadError Stat
  stat_of columns row = do
    let rec = record_of columns row
    merchant_id ← field (codes "merchant_id") rec
    event_date ← field (codes "event_date") rec
    returned (record {
      merchant_id = rt.format merchant_id;
      event_date = rt.format event_date;
      value = dump rt rec;
    })

  module _ (r : Redis) (clock : ℕ → ℕ) where
    unfoldable pub merchants_loop :
        List Text
        → List Row
        → ℕ
        → Latest
        → Session r clock
        → Outcome LoadError (ℕ × Latest) × Session r clock
    merchants_loop columns [] loaded latest t = (returned (loaded, latest), t)
    merchants_loop columns (row ∷ rows) loaded latest t = elim (stat_of columns row) [
      | raised e ↦ (raised e, t)
      | returned s ↦
          merchants_loop columns rows (loaded + 1) (note_latest s latest)
            (turn r clock (stat_write s) (loaded + 1) t)
    ]

    unfoldable pub load_merchant_stats :
        List Text → List Row → Session r clock → Outcome LoadError ℕ × Session r clock
    unfolding merchants_loop after_loop
    load_merchant_stats columns rows t =
        after_loop r clock (merchants_loop columns rows 0 [] (record t { pipe = r.pipeline }))

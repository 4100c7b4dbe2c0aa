-- ===== src/Loader/Rows.antt =====
-- `_JsonEncoder`, the result rows, and the loops' pipeline steps (feature_store/src/loader.py).
use realtime_fraud_feature_s.Prelude.{
  ℕ, ◌%◌, ◌≤◌, ◌≡◌, Option, none, some, List, [], ◌∷◌, Text, text_eq, Dict, get, put_all,
  map_values, Outcome, returned, raised, ◌==◌, if◌then◌else◌, arith, Bool-cases, inl, inr,
}
use realtime_fraud_feature_s.Python.{PgValue, Json, Runtime, iso_date}
use realtime_fraud_feature_s.Redis.{Redis, Entry}
use realtime_fraud_feature_s.Redis.Session.{
  Session, Write, write, flush, view, view-flush, store-flush, or_else, Written, Written-earlier,
  Written-trans, write-Written,
}

abbrev pub user_ttl_seconds : ℕ
user_ttl_seconds = 86400

abbrev pub merchant_ttl_seconds : ℕ
merchant_ttl_seconds = 604800

abbrev pub pipeline_batch : ℕ
pipeline_batch = 100

-- `record["user_id"]` on a record without that column.
pub data LoadError : Type 0 where
  key_error : Text → LoadError
  connection_error : LoadError

abbrev pub Row : Type 0
Row = List PgValue

-- dict(zip(columns, row))
unfoldable pub record_of : List Text → Row → Dict PgValue
record_of columns row = put_all columns row []

-- record[column]
unfoldable pub field : Text → Dict PgValue → Outcome LoadError PgValue
field column rec = elim (get column rec) [ none ↦ raised (key_error column) | some v ↦ returned v ]

module _ (rt : Runtime) where
  -- What `json.dumps(..., cls=_JsonEncoder)` makes of a column's value, of the types that the gold
  -- tables have; `default` refuses no value of these.
  unfoldable pub encode : PgValue → Json rt.Float
  encode PgValue.null = Json.null
  encode (PgValue.boolean b) = Json.bool b
  encode (PgValue.integer n) = Json.int n
  encode (PgValue.numeric d) = Json.float (rt.to_float d)
  encode (PgValue.text s) = Json.str s
  encode (PgValue.date d) = Json.str (iso_date d)
  encode (PgValue.timestamp t) = Json.str (rt.isoformat t)

  -- json.dumps(record, cls=_JsonEncoder)
  unfoldable pub dump : Dict PgValue → Text
  dump rec = rt.dumps (map_values encode rec)

-- Each row gives its write, in order.
pub data Yields {ℓ κ} {A : Type ℓ} {B : Type κ} (f : A → Outcome LoadError B)
    : List A → List B → Type (ℓ ⊔ κ) where
  done : Yields f [] []
  yield :
      {a : A} {b : B} {as' : List A} {bs : List B}
      → f a ≡ returned b
      → Yields f as' bs
      → Yields f (a ∷ as') (b ∷ bs)

module _ (r : Redis) (clock : ℕ → ℕ) where
  -- if loaded % PIPELINE_BATCH == 0: pipe.execute()
  unfoldable pub paced : ℕ → Session r clock → Session r clock
  paced loaded t = if loaded % pipeline_batch == 0 then flush r clock t else t

  pub view-paced : (n : ℕ) (t : Session r clock) → view r clock (paced n t) ≡ view r clock t
  unfolding paced
  view-paced n t = elim (Bool-cases (n % pipeline_batch == 0)) [
    | inl full ↦ rw full (view-flush r clock t)
    | inr part ↦ rw part
  ]

  -- The `pipe.execute()` behind a loop; an exception in the loop passes it by.
  unfoldable pub last_execute :
      Outcome LoadError ℕ × Session r clock → Outcome LoadError ℕ × Session r clock
  last_execute (raised e, t) = (raised e, t)
  last_execute (returned n, t) = (returned n, flush r clock t)

  pub last_execute_lem :
      (p : Outcome LoadError ℕ × Session r clock) (n : ℕ)
      → p.0 ≡ returned n
      → ((last_execute p).0 ≡ returned n) × ((last_execute p).1.store ≡ view r clock p.1)
  unfolding last_execute
  last_execute_lem (raised e, t) n h = cc
  last_execute_lem (returned m, t) n h = (h, store-flush r clock t)

  -- A new pipeline holds no commands.
  pub view-pipeline :
      (t : Session r clock) → view r clock (record t { pipe = r.pipeline }) ≡ t.store
  unfolding view
  view-pipeline t = rw r.queued-pipeline

  pub executed-paced : (n : ℕ) (t : Session r clock) → t.executed ≤ (paced n t).executed
  unfolding paced flush
  executed-paced n t = ground arith

  -- One turn of a loop: a write, and an execute at every hundredth.
  abbrev pub turn : Write → ℕ → Session r clock → Session r clock
  turn w n t = paced n (write r clock w t)

  pub executed-turn : (w : Write) (n : ℕ) (t : Session r clock) → t.executed ≤ (turn w n t).executed
  unfolding write
  executed-turn w n t = executed-paced n (write r clock w t)

-- The seconds at which the executes run do not go back.
abbrev pub Rises : (ℕ → ℕ) → Type 0
Rises clock = (m n : ℕ) → m ≤ n → clock m ≤ clock n

module _ (r : Redis) (clock : ℕ → ℕ) (rises : Rises clock) where
  -- What a turn and the turns after it leave at a key.
  pub turn-Written :
      (w : Write) (n : ℕ) (t : Session r clock) (k : Text) (o : Option Write) (new : Option Entry)
      → Written
          (clock (turn r clock w n t).executed)
          (r.entry (view r clock (turn r clock w n t)) k)
          o
          new
      → Written
          (clock t.executed)
          (r.entry (view r clock t) k)
          (or_else o (if text_eq w.key k then some w else none))
          new
  turn-Written w n t k o new rest =
      Written-trans _ _ _ _ (if text_eq w.key k then some w else none) o
        (write-Written r clock w t k)
        (Written-earlier _ _ _ _ o (rises _ _ (executed-turn r clock w n t))
          (rw (view-paced r clock n (write r clock w t)) at rest))

-- ===== src/Fixtures/Database.antt =====
-- A database of two functions, whose connections keep what they would commit.
use realtime_fraud_feature_s.Prelude.{
  ◌≡◌, refl, Bool, true, false, Option, none, some, Text, text_eq, text_eq_self, Outcome, returned,
  raised, if◌then◌else◌,
}
use realtime_fraud_feature_s.Postgres.{
  Rows, PgError, Statement, begin, commit, create_schema, truncate, insert, drop_cascade, rename,
  mentions, emptied, extended, Postgres,
}
use realtime_fraud_feature_s.BronzeLoad.{Jdbc}

pub record ToyDb : Type 0 where
  pub tables : Text → Option Rows
  pub views : Text → Text → Bool

pub record ToyConnection : Type 0 where
  pub pending : ToyDb
  pub committed : ToyDb

abbrev pub toy_change : Statement → ToyDb → ToyDb
toy_change begin d = d
toy_change commit d = d
toy_change (create_schema n) d = d
toy_change (truncate ts) d = record d {
  tables = λ k. if mentions ts k then emptied (d.tables k) else d.tables k;
}
toy_change (insert t rows) d = record d {
  tables = λ k. if text_eq t k then extended rows (d.tables k) else d.tables k;
}
toy_change (drop_cascade t) d = record {
  tables = λ k. if text_eq t k then none else d.tables k;
  views = λ v k. if text_eq t k then false else d.views v k;
}
toy_change (rename a b) d = record {
  tables = λ k. if text_eq b k then d.tables a else if text_eq a k then none else d.tables k;
  views = λ v k. if text_eq b k then d.views v a else if text_eq a k then false else d.views v k;
}

abbrev pub toy_execute : Statement → ToyConnection → Outcome PgError (Unit {0}) × ToyConnection
toy_execute commit c = (returned tt, record { pending = c.pending; committed = c.pending })
toy_execute s c = (returned tt, record c { pending = toy_change s c.pending })

pub toy_execute-hidden :
    (s : Statement) (c : ToyConnection)
    → (s ≡ commit → ⊥)
    → (toy_execute s c).1.committed ≡ c.committed
toy_execute-hidden begin c h = refl
toy_execute-hidden commit c h = absurd (h refl)
toy_execute-hidden (create_schema n) c h = refl
toy_execute-hidden (truncate ts) c h = refl
toy_execute-hidden (insert t rows) c h = refl
toy_execute-hidden (drop_cascade t) c h = refl
toy_execute-hidden (rename a b) c h = refl

pub kept_view : (b w : Bool) → (if b then false else w) ≡ true → w ≡ true
kept_view true w h = cc
kept_view false w h = h

pub fresh_connection :
    (d : ToyDb) (c : ToyConnection)
    → ◌≡◌ {A = Outcome PgError ToyConnection}
        (returned (record { pending = d; committed = d }))
        (returned c)
    → (c.pending ≡ d) × (c.committed ≡ d)
fresh_connection d c h = (cc, cc)

pub toy_commit-raised :
    (c : ToyConnection) (e : PgError)
    → (toy_execute commit c).0 ≡ raised e
    → (toy_execute commit c).1.committed ≡ c.committed
toy_commit-raised c e h = cc

abbrev pub toy_postgres : Postgres
toy_postgres = record {
  Db = ToyDb;
  table = λ d k. d.tables k;
  has_view = λ d v k. d.views v k;
  Connection = ToyConnection;
  pending = λ c. c.pending;
  committed = λ c. c.committed;
  connect = λ d. returned (record { pending = d; committed = d });
  execute = toy_execute;
  rollback = λ c. record c { pending = c.committed };
  commit_now = λ c. toy_execute commit c;
  connect-fresh = fresh_connection;
  execute-hidden = toy_execute-hidden;
  commit-raised = toy_commit-raised;
  commit-returned = λ c h. (refl, refl);
  commit_now-execute = λ c. refl;
  committed-rollback = λ c. refl;
  table-begin = λ c k h. refl;
  table-create_schema = λ n c k h. refl;
  table-truncate = λ ts c k h. refl;
  table-insert = λ t rows c k h. refl;
  table-drop_cascade = λ t c k h. refl;
  table-rename = λ a b c k h. refl;
  view-begin = λ c v k h. refl;
  view-drop_cascade = λ t c v k h. kept_view (text_eq t k) (c.pending.views v k);
  view-rename = λ a b c v h. rw text_eq_self;
}

abbrev pub toy_write : Text → Rows → ToyDb → Outcome PgError (Unit {0}) × ToyDb
toy_write t rows d = (
  returned tt,
  record {
    tables = λ k. if text_eq t k then some rows else d.tables k;
    views = λ v k. if text_eq t k then false else d.views v k;
  },
)

pub toy_table-write :
    (t : Text) (rows : Rows) (d : ToyDb) → (toy_write t rows d).1.tables t ≡ some rows
toy_table-write t rows d = rw text_eq_self

pub toy_view-write :
    (t : Text) (rows : Rows) (d : ToyDb) (v : Text) → (toy_write t rows d).1.views v t ≡ false
toy_view-write t rows d v = rw text_eq_self

pub toy_table-write_ne :
    (t : Text) (rows : Rows) (d : ToyDb) (k : Text)
    → text_eq t k ≡ false
    → (toy_write t rows d).1.tables k ≡ d.tables k
toy_table-write_ne t rows d k h = rw h

abbrev pub toy_jdbc : Jdbc toy_postgres
toy_jdbc = record {
  write = toy_write;
  table-write = λ t rows d h. toy_table-write t rows d;
  table-write_ne = toy_table-write_ne;
  view-write = λ t rows d v h. toy_view-write t rows d v;
}

-- ===== src/Postgres.antt =====
-- The Postgres server and psycopg2's connections, as far as the scripts use them: a parameter, with
-- documented behaviour as laws.
pub mod Transaction
use realtime_fraud_feature_s.Prelude.{
  ℕ, ◌≡◌, Bool, true, false, not, ◌&&◌, Option, none, some, List, [], ◌∷◌, ◌++◌, Text, text_eq,
  Outcome, returned, raised, if◌then◌else◌,
}
use realtime_fraud_feature_s.Python.{PgValue}

-- The rows of a table.
abbrev pub Rows : Type 0
Rows = List (List PgValue)

pub data PgError : Type 0 where
  pg_error : PgError

-- The statements that the scripts execute, with the tables by their full names.
pub data Statement : Type 0 where
  begin commit : Statement
  create_schema : Text → Statement
  truncate : List Text → Statement
  insert : Text → Rows → Statement
  drop_cascade : Text → Statement
  rename : Text → Text → Statement

abbrev pub mentions : List Text → Text → Bool
mentions [] k = false
mentions (j ∷ js) k = if text_eq j k then true else mentions js k

abbrev pub emptied : Option Rows → Option Rows
emptied none = none
emptied (some rows) = some []

abbrev pub extended : Rows → Option Rows → Option Rows
extended more none = none
extended more (some rows) = some (rows ++ more)

pub record Postgres : Type 1 where
  pub Db : Type 0
  -- a table's rows, and whether the view of the first name stands and reads the table
  pub table : Db → Text → Option Rows
  pub has_view : Db → Text → Text → Bool
  -- a connection: what it would commit, and what other connections see
  pub Connection : Type 0
  pub pending : Connection → Db
  pub committed : Connection → Db
  pub connect : Db → Outcome PgError Connection
  pub execute : Statement → Connection → Outcome PgError (Unit {0}) × Connection
  pub rollback : Connection → Connection
  pub commit_now : Connection → Outcome PgError (Unit {0}) × Connection
  pub connect-fresh :
      (d : Db) (c : Connection) → connect d ≡ returned c → (pending c ≡ d) × (committed c ≡ d)
  -- nothing but a commit shows to others
  pub execute-hidden :
      (s : Statement) (c : Connection) → (s ≡ commit → ⊥) → committed (execute s c).1 ≡ committed c
  pub commit-raised :
      (c : Connection) (e : PgError)
      → (execute commit c).0 ≡ raised e
      → committed (execute commit c).1 ≡ committed c
  pub commit-returned :
      (c : Connection)
      → (execute commit c).0 ≡ returned tt
      → (committed (execute commit c).1 ≡ pending c) × (pending (execute commit c).1 ≡ pending c)
  pub commit_now-execute : (c : Connection) → commit_now c ≡ execute commit c
  pub committed-rollback : (c : Connection) → committed (rollback c) ≡ committed c
  -- what a statement that succeeds has done
  pub table-begin :
      (c : Connection) (k : Text)
      → (execute begin c).0 ≡ returned tt
      → table (pending (execute begin c).1) k ≡ table (pending c) k
  pub table-create_schema :
      (n : Text) (c : Connection) (k : Text)
      → (execute (create_schema n) c).0 ≡ returned tt
      → table (pending (execute (create_schema n) c).1) k ≡ table (pending c) k
  pub table-truncate :
      (ts : List Text) (c : Connection) (k : Text)
      → (execute (truncate ts) c).0 ≡ returned tt
      → table (pending (execute (truncate ts) c).1) k
        ≡ (if mentions ts k then emptied (table (pending c) k) else table (pending c) k)
  pub table-insert :
      (t : Text) (rows : Rows) (c : Connection) (k : Text)
      → (execute (insert t rows) c).0 ≡ returned tt
      → table (pending (execute (insert t rows) c).1) k
        ≡ (if text_eq t k then extended rows (table (pending c) k) else table (pending c) k)
  pub table-drop_cascade :
      (t : Text) (c : Connection) (k : Text)
      → (execute (drop_cascade t) c).0 ≡ returned tt
      → table (pending (execute (drop_cascade t) c).1) k
        ≡ (if text_eq t k then none else table (pending c) k)
  pub table-rename :
      (a b : Text) (c : Connection) (k : Text)
      → (execute (rename a b) c).0 ≡ returned tt
      → table (pending (execute (rename a b) c).1) k ≡ (
          if text_eq b k
          then table (pending c) a
          else if text_eq a k
          then none
          else table (pending c) k)
  -- views go with the table that they read, and follow it when it is renamed
  pub view-begin :
      (c : Connection) (v k : Text)
      → (execute begin c).0 ≡ returned tt
      → has_view (pending (execute begin c).1) v k ≡ has_view (pending c) v k
  pub view-drop_cascade :
      (t : Text) (c : Connection) (v k : Text)
      → (execute (drop_cascade t) c).0 ≡ returned tt
      → has_view (pending (execute (drop_cascade t) c).1) v k ≡ true
      → has_view (pending c) v k ≡ true
  pub view-rename :
      (a b : Text) (c : Connection) (v : Text)
      → (execute (rename a b) c).0 ≡ returned tt
      → has_view (pending (execute (rename a b) c).1) v b ≡ has_view (pending c) v a

-- ===== src/Redis/Server.antt =====
-- The server and the client's pipeline: a parameter, with documented behaviour as laws.
use realtime_fraud_feature_s.Prelude.{
  ℕ, ◌+◌, ◌≡◌, false, Option, none, some, List, [], ◌∷◌, ◌++◌, map, Text, text_eq, ltb,
  if◌then◌else◌,
}

-- The commands that the loader sends.
pub data Command : Type 0 where
  set : Text → Text → Command
  expire : Text → ℕ → Command

-- A key's value and, if it has a timeout, the second at which it is gone.
abbrev pub Entry : Type 0
Entry = Text × Option ℕ

abbrev pub live : ℕ → Option Entry → Option Text
live now none = none
live now (some (v, none)) = some v
live now (some (v, some gone)) = if ltb now gone then some v else none

abbrev pub run_all {ℓ} : {S : Type ℓ} → (Command → S → S) → List Command → S → S
run_all run [] s = s
run_all run (c ∷ cs) s = run_all run cs (run c s)

pub record Redis : Type 1 where
  pub Store : Type 0
  -- what was last written at a key, whether or not it is gone by now
  pub entry : Store → Text → Option Entry
  -- a command that the server runs at a second
  pub run : ℕ → Command → Store → Store
  -- GET at a second
  pub get : ℕ → Store → Text → Option Text
  -- MGET at a second
  pub mget : ℕ → Store → List Text → List (Option Text)
  -- redis_conn.pipeline(), its `set` and `expire`, and `execute`
  pub Pipe : Type 0
  pub pipeline : Pipe
  pub add : Command → Pipe → Pipe
  pub execute : ℕ → Pipe → Store → Pipe × Store
  pub queued : Pipe → List Command
  -- SET writes the value and takes a timeout off
  pub entry-set :
      (now : ℕ) (k v : Text) (s : Store) (j : Text)
      → entry (run now (set k v) s) j ≡ (if text_eq k j then some (v, none) else entry s j)
  -- EXPIRE gives a key that has no timeout one, and touches no other key
  pub entry-expire_self :
      (now : ℕ) (k v : Text) (ttl : ℕ) (s : Store)
      → entry s k ≡ some (v, none)
      → entry (run now (expire k ttl) s) k ≡ some (v, some (now + ttl))
  pub entry-expire_ne :
      (now : ℕ) (k : Text) (ttl : ℕ) (s : Store) (j : Text)
      → text_eq k j ≡ false
      → entry (run now (expire k ttl) s) j ≡ entry s j
  pub get-entry : (now : ℕ) (s : Store) (k : Text) → get now s k ≡ live now (entry s k)
  pub mget-get : (now : ℕ) (s : Store) (ks : List Text) → mget now s ks ≡ map (get now s) ks
  -- a pipeline queues its commands, and `execute` sends them in order and empties it
  pub queued-pipeline : queued pipeline ≡ []
  pub queued-add : (c : Command) (p : Pipe) → queued (add c p) ≡ queued p ++ c ∷ []
  pub queued-execute : (now : ℕ) (p : Pipe) (s : Store) → queued (execute now p s).0 ≡ []
  pub store-execute :
      (now : ℕ) (p : Pipe) (s : Store) → (execute now p s).1 ≡ run_all (run now) (queued p) s

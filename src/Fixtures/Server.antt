-- ===== src/Fixtures/Server.antt =====
-- A Redis that keeps a dictionary of entries, and a pipeline that keeps a list.
use realtime_fraud_feature_s.Prelude.{
  ℕ, ◌+◌, ◌≡◌, refl, false, Option, none, some, List, [], ◌∷◌, ◌++◌, map, Text, text_eq,
  text_eq_self, Dict, get, put, get-put,
}
use realtime_fraud_feature_s.Redis.{Redis, Command, set, expire, Entry, live, run_all}

abbrev expiring : ℕ → Text → Dict Entry → Option Entry → Dict Entry
expiring gone k s none = s
expiring gone k s (some (v, o)) = put k (v, some gone) s

abbrev pub toy_run : ℕ → Command → Dict Entry → Dict Entry
toy_run now (set k v) s = put k (v, none) s
toy_run now (expire k ttl) s = expiring (now + ttl) k s (get k s)

pub get-expiring_self :
    (gone : ℕ) (k v : Text) (s : Dict Entry)
    → get k s ≡ some (v, none)
    → get k (expiring gone k s (get k s)) ≡ some (v, some gone)
get-expiring_self gone k v s h = rw (h, get-put, text_eq_self)

pub get-expiring_ne :
    (gone : ℕ) (k : Text) (s : Dict Entry) (o : Option Entry) (j : Text)
    → text_eq k j ≡ false
    → get j (expiring gone k s o) ≡ get j s
get-expiring_ne gone k s none j h = refl
get-expiring_ne gone k s (some (v, p)) j h = rw (get-put, h)

abbrev pub toy_redis : Redis
toy_redis = record {
  Store = Dict Entry;
  entry = λ s k. get k s;
  run = toy_run;
  get = λ now s k. live now (get k s);
  mget = λ now s ks. map (λ k. live now (get k s)) ks;
  Pipe = List Command;
  pipeline = [];
  add = λ c p. p ++ c ∷ [];
  execute = λ now p s. ([], run_all (toy_run now) p s);
  queued = λ p. p;
  entry-set = λ now k v s j. get-put k j (v, none) s;
  entry-expire_self = λ now k v ttl s h. get-expiring_self (now + ttl) k v s h;
  entry-expire_ne = λ now k ttl s j h. get-expiring_ne (now + ttl) k s (get k s) j h;
  get-entry = λ now s k. refl;
  mget-get = λ now s ks. refl;
  queued-pipeline = refl;
  queued-add = λ c p. refl;
  queued-execute = λ now p s. refl;
  store-execute = λ now p s. refl;
}

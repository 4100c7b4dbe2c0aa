-- ===== src/Fixtures/Codec.antt =====
-- A `Runtime` over texts of any numbers, with `ℕ` for floats.
use realtime_fraud_feature_s.Prelude.{
  ◌↔◌, ℕ, zero, suc, ◌≡◌, ◌≢◌, refl, true, false, Option, none, some, List, [], ◌∷◌, ◌++◌, map,
  Text, Dict, IsDict, ℤ, pos, negsuc,
}
use realtime_fraud_feature_s.Python.{
  PgValue, Json, Loaded, object, other, DateTime, Runtime, iso_date,
}

-- A text with an end mark.
abbrev word : Text → Text
word s = map suc s ++ zero ∷ []

push : ℕ → List Text → List Text
push c [] = []
push c (w ∷ ws) = (c ∷ w) ∷ ws

words : Text → List Text
unfolding push
words [] = []
words (zero ∷ t) = [] ∷ words t
words (suc c ∷ t) = push c (words t)

words-word : (s t : Text) → words (map suc s ++ zero ∷ t) ≡ s ∷ words t
unfolding words
words-word [] t = refl
words-word (c ∷ s) t = rw (words-word s t)

abbrev write_value : Json ℕ → Text
write_value Json.null = 0 ∷ []
write_value (Json.bool true) = 1 ∷ 1 ∷ []
write_value (Json.bool false) = 1 ∷ 0 ∷ []
write_value (Json.int (pos n)) = 2 ∷ 0 ∷ n ∷ []
write_value (Json.int (negsuc n)) = 2 ∷ 1 ∷ n ∷ []
write_value (Json.float x) = 3 ∷ x ∷ []
write_value (Json.str s) = 4 ∷ s
write_value (Json.compound s) = 5 ∷ s

read_value : Text → Option (Json ℕ)
read_value (zero ∷ t) = some Json.null
read_value (suc zero ∷ zero ∷ t) = some (Json.bool false)
read_value (suc zero ∷ suc b ∷ t) = some (Json.bool true)
read_value (suc (suc zero) ∷ zero ∷ n ∷ t) = some (Json.int (pos n))
read_value (suc (suc zero) ∷ suc b ∷ n ∷ t) = some (Json.int (negsuc n))
read_value (suc (suc (suc zero)) ∷ x ∷ t) = some (Json.float x)
read_value (suc (suc (suc (suc zero))) ∷ t) = some (Json.str t)
read_value (suc (suc (suc (suc (suc c)))) ∷ t) = some (Json.compound t)
read_value _ = none

read-write_value : (v : Json ℕ) → read_value (write_value v) ≡ some v
unfolding read_value
read-write_value Json.null = refl
read-write_value (Json.bool true) = refl
read-write_value (Json.bool false) = refl
read-write_value (Json.int (pos n)) = refl
read-write_value (Json.int (negsuc n)) = refl
read-write_value (Json.float x) = refl
read-write_value (Json.str s) = refl
read-write_value (Json.compound s) = refl

write_entries : Dict (Json ℕ) → Text
write_entries [] = []
write_entries ((k, v) ∷ d) =
    map suc k ++ (zero ∷ (map suc (write_value v) ++ (zero ∷ write_entries d)))

cons_entry : Text → Option (Json ℕ) → Option (Dict (Json ℕ)) → Option (Dict (Json ℕ))
cons_entry k (some v) (some d) = some ((k, v) ∷ d)
cons_entry k _ _ = none

read_entries : List Text → Option (Dict (Json ℕ))
unfolding read_value cons_entry
read_entries [] = some []
read_entries (k ∷ []) = none
read_entries (k ∷ v ∷ ws) = cons_entry k (read_value v) (read_entries ws)

read-write_entries : (d : Dict (Json ℕ)) → read_entries (words (write_entries d)) ≡ some d
unfolding read_entries write_entries words
read-write_entries [] = refl
read-write_entries ((k, v) ∷ d) =
    rw (words-word k, words-word (write_value v), read-write_value v, read-write_entries d)

unfoldable pub toy_dumps : Dict (Json ℕ) → Text
unfolding write_entries
toy_dumps d = zero ∷ write_entries d

unfoldable pub toy_loads : Text → Option (Dict (Json ℕ))
unfolding read_entries words
toy_loads [] = none
toy_loads (zero ∷ t) = read_entries (words t)
toy_loads (suc c ∷ t) = none

-- A text that starts with 1 holds a value that is not an object.
unfoldable pub toy_loads_any : Text → Option (Loaded ℕ)
unfolding toy_loads
toy_loads_any [] = none
toy_loads_any (zero ∷ t) = elim (toy_loads (zero ∷ t)) [ none ↦ none | some d ↦ some (object d) ]
toy_loads_any (suc c ∷ t) = elim (read_value t) [ none ↦ none | some v ↦ some (other v) ]

lifted_iff :
    (o : Option (Dict (Json ℕ))) (d : Dict (Json ℕ))
    → (o ≡ some d) ↔ (elim o [ none ↦ none | some x ↦ some (object x) ] ≡ some (object d))
lifted_iff none d = (λ h. cc, λ h. cc)
lifted_iff (some o) d = (λ h. cc, λ h. cc)

other_iff :
    (o : Option (Json ℕ)) (d : Dict (Json ℕ))
    → (none ≡ some d) ↔ (elim o [ none ↦ none | some x ↦ some (other x) ] ≡ some (object d))
other_iff none d = (λ h. cc, λ h. cc)
other_iff (some v) d = (λ h. cc, λ h. cc)

pub toy_loads-loads_any :
    (s : Text) (d : Dict (Json ℕ)) → (toy_loads s ≡ some d) ↔ (toy_loads_any s ≡ some (object d))
unfolding toy_loads_any toy_loads
toy_loads-loads_any [] d = (λ h. cc, λ h. cc)
toy_loads-loads_any (zero ∷ t) d = lifted_iff (read_entries (words t)) d
toy_loads-loads_any (suc c ∷ t) d = other_iff (read_value t) d

pub toy_loads-dumps : (d : Dict (Json ℕ)) → IsDict d → toy_loads (toy_dumps d) ≡ some d
unfolding toy_loads toy_dumps
toy_loads-dumps d h = read-write_entries d

pub toy_dumps-ne-nil : (d : Dict (Json ℕ)) → toy_dumps d ≢ []
unfolding toy_dumps
toy_dumps-ne-nil d e = cc

abbrev pub toy_format : PgValue → Text
toy_format (PgValue.text s) = s
toy_format (PgValue.date d) = iso_date d
toy_format _ = []

abbrev pub toy_isoformat : DateTime → Text
toy_isoformat t = zone t.wall t.tzinfo
  where
    zone : ℕ → Option ℤ → Text
    zone w none = w ∷ []
    zone w (some (pos n)) = w ∷ 0 ∷ n ∷ []
    zone w (some (negsuc n)) = w ∷ 1 ∷ n ∷ []

abbrev pub toy_fromisoformat : Text → Option DateTime
toy_fromisoformat (w ∷ []) = some (record { wall = w; tzinfo = none })
toy_fromisoformat (w ∷ zero ∷ n ∷ []) = some (record { wall = w; tzinfo = some (pos n) })
toy_fromisoformat (w ∷ suc k ∷ n ∷ []) = some (record { wall = w; tzinfo = some (negsuc n) })
toy_fromisoformat _ = none

toy_zone_lem :
    (w : ℕ) (z : Option ℤ)
    → toy_fromisoformat (toy_isoformat (record { wall = w; tzinfo = z }))
      ≡ some (record { wall = w; tzinfo = z })
toy_zone_lem w none = refl
toy_zone_lem w (some (pos n)) = refl
toy_zone_lem w (some (negsuc n)) = refl

pub toy_fromisoformat-isoformat : (t : DateTime) → toy_fromisoformat (toy_isoformat t) ≡ some t
toy_fromisoformat-isoformat t = toy_zone_lem t.wall t.tzinfo

abbrev pub toy_runtime : Runtime
toy_runtime = record {
  Float = ℕ;
  to_float = λ d. d.coefficient;
  format = toy_format;
  dumps = toy_dumps;
  loads = toy_loads;
  isoformat = toy_isoformat;
  fromisoformat = toy_fromisoformat;
  format-text = λ s. refl;
  format-date = λ d. refl;
  loads_any = toy_loads_any;
  loads-loads_any = toy_loads-loads_any;
  loads-dumps = toy_loads-dumps;
  dumps-ne-nil = toy_dumps-ne-nil;
  fromisoformat-isoformat = toy_fromisoformat-isoformat;
}

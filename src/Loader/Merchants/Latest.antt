-- ===== src/Loader/Merchants/Latest.antt =====
-- What the dictionary `latest` holds after the loop.
use realtime_fraud_feature_s.Prelude.{
  ◌≡◌, refl, sym, Option, none, some, true, false, ◌⊎◌, inl, inr, List, [], ◌∷◌, Text, text_eq,
  text_eq_iff, text_lt, get, get-put, arith, Bool-cases, if◌then◌else◌,
}
use realtime_fraud_feature_s.Loader.Merchants.{Stat, Latest, is_newer, note_latest}

unfoldable pub latest_of : List Stat → Latest → Latest
latest_of [] latest = latest
latest_of (s ∷ stats) latest = latest_of stats (note_latest s latest)

-- `>=` on `str` is transitive, and `<` is not symmetric.
ge_trans : (a b c : Text) → text_lt a b ≡ false → text_lt b c ≡ false → text_lt a c ≡ false
unfolding text_lt
ge_trans a b [] h k = refl
ge_trans a [] (z ∷ c) h k = cc
ge_trans [] (y ∷ b) (z ∷ c) h k = cc
ge_trans (x ∷ a) (y ∷ b) (z ∷ c) h k = ground (arith, ge_trans a b c)

lt_asymm : (a b : Text) → text_lt a b ≡ true → text_lt b a ≡ false
unfolding text_lt
lt_asymm [] [] h = cc
lt_asymm (x ∷ a) [] h = cc
lt_asymm [] (y ∷ b) h = refl
lt_asymm (x ∷ a) (y ∷ b) h = ground (arith, lt_asymm a b)

text_lt_self : (a : Text) → text_lt a a ≡ false
unfolding text_lt
text_lt_self [] = refl
text_lt_self (x ∷ a) = ground (arith, text_lt_self a)

-- A row of merchant `m` with this date and value is among the rows.
abbrev pub IsRowOf : Text → Text × Text → List Stat → Type 0
IsRowOf m e [] = ⊥
IsRowOf m e (s ∷ stats) = ((s.merchant_id ≡ m) × ((s.event_date, s.value) ≡ e)) ⊎ IsRowOf m e stats

-- No row of merchant `m` has a date after `date`.
abbrev pub NoneAfter : Text → Text → List Stat → Type 0
NoneAfter m date [] = Unit
NoneAfter m date (s ∷ stats) =
    (text_eq s.merchant_id m ≡ true → text_lt date s.event_date ≡ false) × NoneAfter m date stats

-- Merchant `m` has no rows.
abbrev pub NoRows : Text → List Stat → Type 0
NoRows m [] = Unit
NoRows m (s ∷ stats) = (text_eq s.merchant_id m ≡ false) × NoRows m stats

-- What `latest` says of a merchant, after these rows.
abbrev pub IsLatestOf : Text → List Stat → Option (Text × Text) → Type 0
IsLatestOf m stats none = NoRows m stats
IsLatestOf m stats (some (date, value)) = IsRowOf m (date, value) stats × NoneAfter m date stats

get-note_latest :
    (s : Stat) (latest : Latest) (m : Text)
    → get m (note_latest s latest) ≡ (
        if text_eq s.merchant_id m
        then if is_newer s.event_date (get m latest)
          then some (s.event_date, s.value)
          else get m latest
        else get m latest)
unfolding note_latest
get-note_latest s latest m =
    ground
      (arith, get-put s.merchant_id m (s.event_date, s.value) latest, text_eq_iff s.merchant_id m)

abbrev noted : Text → Stat → Option (Text × Text) → Option (Text × Text)
noted m s o =
    if text_eq s.merchant_id m
    then if is_newer s.event_date o then some (s.event_date, s.value) else o
    else o

-- What rows make of a merchant's item of `latest`.
abbrev Updates : Text → List Stat → Option (Text × Text) → Option (Text × Text) → Type 0
Updates m stats none new = IsLatestOf m stats new
Updates m stats (some old) none = ⊥
Updates m stats (some old) (some new) =
    ((new ≡ old) ⊎ IsRowOf m new stats) × NoneAfter m new.0 stats × (text_lt new.0 old.0 ≡ false)

Updates-nil : (m : Text) (o : Option (Text × Text)) → Updates m [] o o
Updates-nil m none = tt
Updates-nil m (some e) = (inl refl, tt, text_lt_self e.0)

Updates-cons_other :
    (m : Text) (s : Stat) (stats : List Stat) (old new : Option (Text × Text))
    → text_eq s.merchant_id m ≡ false
    → Updates m stats old new
    → Updates m (s ∷ stats) old new
Updates-cons_other m s stats none none e u = (e, u)
Updates-cons_other m s stats none (some new) e (row, after) = (inr row, (λ h. cc, after))
Updates-cons_other m s stats (some old) none e u = u
Updates-cons_other m s stats (some old) (some new) e (inl same, after, lt) =
    (inl same, (λ h. cc, after), lt)
Updates-cons_other m s stats (some old) (some new) e (inr row, after, lt) =
    (inr (inr row), (λ h. cc, after), lt)

Updates-cons_newer :
    (m : Text) (s : Stat) (stats : List Stat) (old new : Option (Text × Text))
    → text_eq s.merchant_id m ≡ true
    → is_newer s.event_date old ≡ true
    → Updates m stats (some (s.event_date, s.value)) new
    → Updates m (s ∷ stats) old new
unfolding is_newer
Updates-cons_newer m s stats none none e n u = absurd u
Updates-cons_newer m s stats (some old) none e n u = u
Updates-cons_newer m s stats none (some new) e n (inl same, after, lt) =
    (inl ((text_eq_iff _ _).0 e, sym same), (λ _. lt, after))
Updates-cons_newer m s stats none (some new) e n (inr row, after, lt) = (inr row, (λ _. lt, after))
Updates-cons_newer m s stats (some old) (some new) e n (inl same, after, lt) = (
  inr (inl ((text_eq_iff _ _).0 e, sym same)),
  (λ _. lt, after),
  ge_trans new.0 s.event_date old.0 lt (lt_asymm old.0 s.event_date n),
)
Updates-cons_newer m s stats (some old) (some new) e n (inr row, after, lt) = (
  inr (inr row),
  (λ _. lt, after),
  ge_trans new.0 s.event_date old.0 lt (lt_asymm old.0 s.event_date n),
)

Updates-cons_older :
    (m : Text) (s : Stat) (stats : List Stat) (old new : Option (Text × Text))
    → text_eq s.merchant_id m ≡ true
    → is_newer s.event_date old ≡ false
    → Updates m stats old new
    → Updates m (s ∷ stats) old new
unfolding is_newer
Updates-cons_older m s stats none new e n u = cc
Updates-cons_older m s stats (some old) none e n u = u
Updates-cons_older m s stats (some old) (some new) e n (inl same, after, lt) =
    (inl same, (λ _. ge_trans new.0 old.0 s.event_date lt n, after), lt)
Updates-cons_older m s stats (some old) (some new) e n (inr row, after, lt) =
    (inr (inr row), (λ _. ge_trans new.0 old.0 s.event_date lt n, after), lt)

Updates-cons :
    (m : Text) (s : Stat) (stats : List Stat) (old new : Option (Text × Text))
    → Updates m stats (noted m s old) new
    → Updates m (s ∷ stats) old new
Updates-cons m s stats old new u = elim (Bool-cases (text_eq s.merchant_id m)) [
  | inr other ↦ Updates-cons_other m s stats old new other (rw other at u)
  | inl same ↦
      let v : Updates m stats
          (if is_newer s.event_date old then some (s.event_date, s.value) else old) new =
        rw same at u in
      elim (Bool-cases (is_newer s.event_date old)) [
        | inl newer ↦ Updates-cons_newer m s stats old new same newer (rw newer at v)
        | inr older ↦ Updates-cons_older m s stats old new same older (rw older at v)
      ]
]

latest_of-Updates :
    (m : Text) (stats : List Stat) (latest : Latest)
    → Updates m stats (get m latest) (get m (latest_of stats latest))
unfolding latest_of
latest_of-Updates m [] latest = Updates-nil m (get m latest)
latest_of-Updates m (s ∷ stats) latest =
    Updates-cons m s stats (get m latest) _
      (rw get-note_latest at (latest_of-Updates m stats (note_latest s latest)))

-- After the loop, `latest` has no item for a merchant without rows, and for any other merchant the
-- date and value of one of its rows, such that none of its rows has a later date.
pub latest_of-IsLatestOf :
    (m : Text) (stats : List Stat) → IsLatestOf m stats (get m (latest_of stats []))
unfolding get
latest_of-IsLatestOf m stats = latest_of-Updates m stats []

-- ===== src/BronzeLoad/Columns.antt =====
-- Which columns reach the warehouse.
use mathlib.Core.Path.{fun_ext}
use mathlib.Core.List.{map-map}
use realtime_fraud_feature_s.Prelude.{
  ◌≡◌, refl, ap, ◌∙◌, Bool-cases, inl, inr, Option, none, some, List, [], ◌∷◌, map, Text, text_eq,
  text_eq_iff, Dict, get, if◌then◌else◌, arith,
}
use realtime_fraud_feature_s.Python.{PgValue}
use realtime_fraud_feature_s.BronzeLoad.{raw_json, drop_raw, Frame, text_value, text_rows}

-- A row's cells under the names of their columns.
abbrev pub named {ℓ} : {A : Type ℓ} → List Text → List A → Dict A
named [] xs = []
named (c ∷ columns) [] = []
named (c ∷ columns) (x ∷ xs) = (c, x) ∷ named columns xs

named-nil {ℓ} : {A : Type ℓ} (columns : List Text) → named {A = A} columns [] ≡ []
named-nil [] = refl
named-nil (c ∷ columns) = refl

get-drop_raw {ℓ} :
    {A : Type ℓ} (k : Text) (columns : List Text) (xs : List A)
    → get k (named (drop_raw columns columns) (drop_raw columns xs))
      ≡ (if text_eq raw_json k then none else get k (named columns xs))
unfolding get drop_raw
get-drop_raw k [] xs = ground arith
get-drop_raw k (c ∷ columns) [] = elim (Bool-cases (text_eq raw_json k)) [
  | inl same ↦ rw (named-nil, same)
  | inr other ↦ rw (named-nil, other)
]
get-drop_raw k (c ∷ columns) (x ∷ xs) = ground (
  arith,
  get-drop_raw k columns xs,
  text_eq_iff c raw_json,
  text_eq_iff raw_json k,
  text_eq_iff c k,
)

abbrev pub as_value {ℓ} : {A : Type ℓ} → (A → Option Text) → Option A → Option PgValue
as_value to_string none = none
as_value to_string (some x) = some (text_value (to_string x))

get-named-map {ℓ} :
    {A : Type ℓ} (to_string : A → Option Text) (k : Text) (columns : List Text) (xs : List A)
    → get k (named columns (map (λ x. text_value (to_string x)) xs))
      ≡ as_value to_string (get k (named columns xs))
unfolding get
get-named-map to_string k [] xs = refl
get-named-map to_string k (c ∷ columns) [] = refl
get-named-map to_string k (c ∷ columns) (x ∷ xs) = elim (Bool-cases (text_eq c k)) [
  | inl same ↦ rw same
  | inr other ↦ rw (other, get-named-map to_string k columns xs)
]

pub named_row :
    {Cell : Type 0} (to_string : Cell → Option Text) (columns : List Text) (k : Text)
    (row : List Cell)
    → get k (
        named
          (drop_raw columns columns)
          (map (λ x. text_value (to_string x)) (drop_raw columns row)))
      ≡ (if text_eq raw_json k then none else as_value to_string (get k (named columns row)))
named_row to_string columns k row =
    get-named-map to_string k (drop_raw columns columns) (drop_raw columns row)
    ∙ elim (Bool-cases (text_eq raw_json k)) [
      | inl same ↦ rw (get-drop_raw k columns row, same)
      | inr other ↦ rw (get-drop_raw k columns row, other)
    ]

-- In every row that is loaded the payload's column is missing, and every other column holds the
-- frame's cell as a string, or null.
pub text_rows-named :
    {Cell : Type 0} (to_string : Cell → Option Text) (df : Frame Cell) (k : Text)
    → map (λ row. get k (named (drop_raw df.columns df.columns) row)) (text_rows to_string df)
      ≡ map
          (λ row.
            if text_eq raw_json k then none else as_value to_string (get k (named df.columns row)))
          df.rows
unfolding text_rows
text_rows-named to_string df k =
    map-map _ _ df.rows ∙ ap (λ f. map f df.rows) (fun_ext (named_row to_string df.columns k))

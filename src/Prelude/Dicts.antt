-- ===== src/Prelude/Dicts.antt =====
-- Python's `dict` with string keys, in insertion order.
use mathlib.Core.Path.{◌≡◌, refl}
use mathlib.Core.Option.{Option, none, some}
use mathlib.Core.List.{List, [], ◌∷◌}
use native.Mathlib.Omega.{arith}
use realtime_fraud_feature_s.Prelude.Tests.{if◌then◌else◌}
use realtime_fraud_feature_s.Prelude.Texts.{Text, text_eq, text_eq_iff}

abbrev pub Dict {ℓ} : Type ℓ → Type ℓ
Dict V = List (Text × V)

module _ {ℓ} {V : Type ℓ} where
  -- d.get(k)
  unfoldable pub get : Text → Dict V → Option V
  get k [] = none
  get k ((j, v) ∷ d) = if text_eq j k then some v else get k d

  -- d[k] = v: an old key keeps its place, a new one goes to the end
  unfoldable pub put : Text → V → Dict V → Dict V
  put k v [] = (k, v) ∷ []
  put k v ((j, w) ∷ d) = if text_eq j k then (j, v) ∷ d else (j, w) ∷ put k v d

  pub get-put :
      (k j : Text) (v : V) (d : Dict V)
      → get j (put k v d) ≡ (if text_eq k j then some v else get j d)
  unfolding get put
  get-put k j v [] = refl
  get-put k j v ((i, w) ∷ d) =
      ground (arith, text_eq_iff k j, text_eq_iff i k, text_eq_iff i j, get-put k j v d)

  -- No key stands twice.
  abbrev pub IsDict : Dict V → Type ℓ
  IsDict [] = Unit
  IsDict ((j, v) ∷ d) = (get j d ≡ none) × IsDict d

  pub put-IsDict : (k : Text) (v : V) (d : Dict V) → IsDict d → IsDict (put k v d)
  unfolding get put
  put-IsDict k v [] h = (refl, tt)
  put-IsDict k v ((j, w) ∷ d) (h, hs) =
      ground (arith, put-IsDict k v d hs, get-put k j v d, text_eq_iff j k, text_eq_iff k j)

  -- dict(zip(keys, values)): stops at the shorter of the two, and a key's last value stays.
  unfoldable pub put_all : List Text → List V → Dict V → Dict V
  put_all [] vs d = d
  put_all (k ∷ ks) [] d = d
  put_all (k ∷ ks) (v ∷ vs) d = put_all ks vs (put k v d)

  pub put_all-IsDict :
      (ks : List Text) (vs : List V) (d : Dict V) → IsDict d → IsDict (put_all ks vs d)
  unfolding put_all
  put_all-IsDict [] vs d h = h
  put_all-IsDict (k ∷ ks) [] d h = h
  put_all-IsDict (k ∷ ks) (v ∷ vs) d h = put_all-IsDict ks vs (put k v d) (put-IsDict k v d h)

module _ {ℓ κ} {V : Type ℓ} {W : Type κ} where
  unfoldable pub map_values : (V → W) → Dict V → Dict W
  map_values f [] = []
  map_values f ((k, v) ∷ d) = (k, f v) ∷ map_values f d

  pub get-map_values-none :
      (f : V → W) (k : Text) (d : Dict V) → get k d ≡ none → get k (map_values f d) ≡ none
  unfolding get map_values
  get-map_values-none f k [] h = refl
  get-map_values-none f k ((j, v) ∷ d) h = ground (arith, get-map_values-none f k d)

  pub map_values-IsDict : (f : V → W) (d : Dict V) → IsDict d → IsDict (map_values f d)
  unfolding map_values
  map_values-IsDict f [] h = tt
  map_values-IsDict f ((j, v) ∷ d) (h, hs) = (get-map_values-none f j d h, map_values-IsDict f d hs)

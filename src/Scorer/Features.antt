-- ===== src/Scorer/Features.antt =====
-- Which feature objects the scorer can score.

use realtime_fraud_feature_s.Prelude.{
  ℕ, ◌≤◌, ◌≡◌, ◌↔◌, refl, ap, none, some, Bool, true, false, List, [], ◌∷◌, codes, Dict, get,
  returned, >>=-returned, arith, pos, negsuc, All,
}
use realtime_fraud_feature_s.Python.{Json}
use realtime_fraud_feature_s.Scorer.{
  Floats, Signals, assess, approved, enforce, exceeds, get_or, signals, score_transaction,
}

module _ {F : Type 0} (floats : Floats F) where
  -- Numbers and Booleans compare with a number; null and text raise.
  abbrev pub Compares : Json F → Type 0
  Compares Json.null = ⊥
  Compares (Json.str s) = ⊥
  Compares (Json.compound s) = ⊥
  Compares _ = Unit

  exceeds-Compares :
      (v : Json F) (tenths : ℕ) (b : Bool) → exceeds floats v tenths ≡ returned b → Compares v
  unfolding exceeds
  exceeds-Compares Json.null tenths b h = cc
  exceeds-Compares (Json.str s) tenths b h = cc
  exceeds-Compares (Json.compound s) tenths b h = cc
  exceeds-Compares _ tenths b h = tt

  Compares-exceeds :
      (v : Json F) (tenths : ℕ) → Compares v → (b : Bool) × (exceeds floats v tenths ≡ returned b)
  unfolding exceeds
  Compares-exceeds Json.null tenths h = absurd h
  Compares-exceeds (Json.str s) tenths h = absurd h
  Compares-exceeds (Json.compound s) tenths h = absurd h
  Compares-exceeds (Json.bool true) tenths h = (_, refl)
  Compares-exceeds (Json.bool false) tenths h = (_, refl)
  Compares-exceeds (Json.int (pos n)) tenths h = (_, refl)
  Compares-exceeds (Json.int (negsuc n)) tenths h = (_, refl)
  Compares-exceeds (Json.float x) tenths h = (_, refl)

  -- The values that the script reads, with its defaults.
  abbrev pub inputs : Dict (Json F) → List (Json F)
  inputs features =
      get_or floats (codes "txn_count_24h") (Json.int (pos 0)) features
      ∷ get_or floats (codes "failure_rate_24h") (Json.float floats.nought) features
      ∷ get_or floats (codes "unique_cities_24h") (Json.int (pos 1)) features
      ∷ get_or floats (codes "late_night_txn_count_24h") (Json.int (pos 0)) features
      ∷ get_or floats (codes "latest_amount_zscore") (Json.float floats.nought) features
      ∷ []

  -- The features get signals, and so a verdict, exactly if none of the five values is null or a
  -- text; a feature that is not there never stands in the way.
  pub signals_iff :
      (features : Dict (Json F))
      → ((s : Signals) × (signals floats features ≡ returned s)) ↔ All Compares (inputs features)
  unfolding signals
  signals_iff features = (forth, back)
    where
      forth :
          (s : Signals) × (signals floats features ≡ returned s) → All Compares (inputs features)
      forth (s, h) =
          let (a, ea, ha) = >>=-returned _ _ h in
          let (b, eb, hb) = >>=-returned _ _ ha in
          let (c, ec, hc) = >>=-returned _ _ hb in
          let (d, ed, hd) = >>=-returned _ _ hc in
          let (e, ee, he) = >>=-returned _ _ hd in
          (
            exceeds-Compares _ _ a ea,
            (
              exceeds-Compares _ _ b eb,
              (
                exceeds-Compares _ _ c ec,
                (exceeds-Compares _ _ d ed, (exceeds-Compares _ _ e ee, tt)),
              ),
            ),
          )

      back : All Compares (inputs features) → (s : Signals) × (signals floats features ≡ returned s)
      back (a, (b, (c, (d, (e, _))))) =
          let (v, ev) =
            Compares-exceeds (get_or floats (codes "txn_count_24h") (Json.int (pos 0)) features) 150
              a in
          let (w, ew) =
            Compares-exceeds
              (get_or floats (codes "failure_rate_24h") (Json.float floats.nought) features) 4 b in
          let (x, ex) =
            Compares-exceeds (get_or floats (codes "unique_cities_24h") (Json.int (pos 1)) features)
              20 c in
          let (y, ey) =
            Compares-exceeds
              (get_or floats (codes "late_night_txn_count_24h") (Json.int (pos 0)) features) 20 d in
          let (z, ez) =
            Compares-exceeds
              (get_or floats (codes "latest_amount_zscore") (Json.float floats.nought) features) 30
              e in
          (
            record { velocity = v; failures = w; travel = x; night = y; deviation = z },
            rw (ev, ew, ex, ey, ez),
          )

  abbrev pub NoneKnown : Dict (Json F) → Type 0
  NoneKnown features =
      All (λ name. get (codes name) features ≡ none)
        ("txn_count_24h" ∷ "failure_rate_24h" ∷ "unique_cities_24h" ∷ "late_night_txn_count_24h"
          ∷ "latest_amount_zscore" ∷ [])

  abbrev no_signals : Signals
  no_signals = record {
    velocity = false;
    failures = false;
    travel = false;
    night = false;
    deviation = false;
  }

  signals-unknown :
      (features : Dict (Json F))
      → NoneKnown features
      → signals floats features ≡ returned no_signals
  unfolding signals exceeds
  signals-unknown features (a, (b, (c, (d, (e, _))))) =
      ground (arith, floats.above-nought 4, floats.above-nought 30)

  enforce-no_signals : (noise : ℕ) → noise ≤ 15 → enforce noise (assess no_signals) ≡ approved noise
  unfolding enforce assess
  enforce-no_signals noise h = ground arith

  -- A user of whom none of the five features is known has no signal: the transaction is approved
  -- with the noise alone for its score.
  pub score_transaction-unknown {κ} :
      (E : Type 0) {R : Type κ} (features : R → Dict (Json F)) (resp : R) (noise : ℕ)
      → NoneKnown (features resp)
      → noise ≤ 15
      → score_transaction floats {E = E} features (some (returned resp)) noise
        ≡ returned (approved noise)
  unfolding score_transaction
  score_transaction-unknown E features resp noise unknown h =
      rw (signals-unknown (features resp) unknown) (ap returned (enforce-no_signals noise h))

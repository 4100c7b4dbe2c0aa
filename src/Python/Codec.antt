-- ===== src/Python/Codec.antt =====
-- The library functions that the program calls and does not implement, with what is documented of
-- them: `json`, `isoformat`, `str`, `float`.
use realtime_fraud_feature_s.Prelude.{◌≡◌, ◌≢◌, ◌↔◌, [], Option, some, Text, Dict, IsDict}
use realtime_fraud_feature_s.Python.Calendar.{Date, DateTime, iso_date}
use realtime_fraud_feature_s.Python.Values.{Decimal, PgValue, text, date, Json}

-- What `json.loads` returns: an object, or another value.
pub data Loaded (F : Type 0) : Type 0 where
  object : Dict (Json F) → Loaded F
  other : Json F → Loaded F

pub record Runtime : Type 1 where
  pub Float : Type 0
  -- float(d)
  pub to_float : Decimal → Float
  -- str(v)
  pub format : PgValue → Text
  -- json.dumps of an object, and json.loads of a text that holds one
  pub dumps : Dict (Json Float) → Text
  pub loads : Text → Option (Dict (Json Float))
  -- json.loads, with none for its `JSONDecodeError`
  pub loads_any : Text → Option (Loaded Float)
  -- t.isoformat() and datetime.fromisoformat(s)
  pub isoformat : DateTime → Text
  pub fromisoformat : Text → Option DateTime
  pub format-text : (s : Text) → format (text s) ≡ s
  pub format-date : (d : Date) → format (date d) ≡ iso_date d
  pub loads-dumps : (d : Dict (Json Float)) → IsDict d → loads (dumps d) ≡ some d
  pub loads-loads_any :
      (s : Text) (d : Dict (Json Float)) → (loads s ≡ some d) ↔ (loads_any s ≡ some (object d))
  pub dumps-ne-nil : (d : Dict (Json Float)) → dumps d ≢ []
  pub fromisoformat-isoformat : (t : DateTime) → fromisoformat (isoformat t) ≡ some t

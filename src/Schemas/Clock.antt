-- ===== src/Schemas/Clock.antt =====
-- What `validate_timestamp_not_future` compares, in terms of the moments that times stand for.
use realtime_fraud_feature_s.Prelude.{
  ℕ, suc, ◌+◌, ◌-◌, ◌≤◌, ◌≡◌, ◌↔◌, some, returned, raised, ℤ, pos, negsuc, ◌≤ℤ◌, ◌<ℤ◌, ◌-ℤ◌,
  -ℤ_parts, arith,
}
use realtime_fraud_feature_s.Python.{DateTime, instant}
use realtime_fraud_feature_s.Schemas.{validation_error, validate_timestamp_not_future}

accepted_iff_wall :
    (now wall : ℕ) (zone : ℤ)
    → let v : DateTime = record { wall = wall; tzinfo = some zone } in
      (validate_timestamp_not_future now v ≡ returned v) ↔ (wall ≤ now)
unfolding validate_timestamp_not_future
accepted_iff_wall now wall zone = ground arith

wall_iff_instant : (now wall : ℕ) (zone : ℤ) → (wall ≤ now) ↔ (instant wall zone ≤ℤ pos now -ℤ zone)
wall_iff_instant now wall zone = (
  λ h. omega (arith, -ℤ_parts (pos wall) zone, -ℤ_parts (pos now) zone),
  λ h. omega (arith, -ℤ_parts (pos wall) zone, -ℤ_parts (pos now) zone),
)

-- A time in a zone `zone` ahead of UTC is accepted exactly if the moment that it stands for is not
-- past `now` less the zone's distance: the limit is `now` in UTC only, earlier in zones east of it
-- and later in zones west of it.
pub accepted_iff_instant :
    (now wall : ℕ) (zone : ℤ)
    → let v : DateTime = record { wall = wall; tzinfo = some zone } in
      (validate_timestamp_not_future now v ≡ returned v) ↔ (instant wall zone ≤ℤ pos now -ℤ zone)
accepted_iff_instant now wall zone =
    let a = accepted_iff_wall now wall zone in
    let b = wall_iff_instant now wall zone in (λ h. b.0 (a.0 h), λ h. a.1 (b.1 h))

-- East of UTC the present moment is refused as lying in the future, and west of UTC a moment in
-- the future, as far as the zone's distance, is accepted.
pub zone_breaks_limit :
    (now ahead late : ℕ)
    → late ≤ ahead
    → let east : DateTime = record { wall = now + suc ahead; tzinfo = some (pos (suc ahead)) } in
      let west : DateTime = record { wall = now - ahead + late; tzinfo = some (negsuc ahead) } in
      (instant east.wall (pos (suc ahead)) ≡ pos now)
      × (validate_timestamp_not_future now east ≡ raised validation_error)
      × (ahead ≤ now
          → (pos now <ℤ instant west.wall (negsuc ahead))
            × (validate_timestamp_not_future now west ≡ returned west))
unfolding validate_timestamp_not_future ◌-ℤ◌
zone_breaks_limit now ahead late h = (ground arith, ground arith, λ k. (ground arith, ground arith))

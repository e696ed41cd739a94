-- ===== src/Vessels/Laws.antt =====
-- A vessel that has gone dark stays dark as the replay goes on without it.
use react_ai_healthycare.Base.{String, Option, none, some, true, ◌≡◌, arith, truthy?}
use react_ai_healthycare.Base.Int.{ℤ, pos, ◌≤ℤ◌, -ℤ_parts}
use react_ai_healthycare.Api.Records.{Signal}
use react_ai_healthycare.Vessels.{VesselTrack, is_dark, cutoff, last_seen, vessel_at}

-- The replay time is one date and then a date that is not before it.
abbrev pub IsLater : Option ℤ → Option ℤ → Type 0
IsLater (some a) (some b) = a ≤ℤ b
IsLater none b = Unit
IsLater (some a) none = ⊥

is_dark_mono :
    (parse_date : String → Option ℤ) (a b seen : Option ℤ)
    → IsLater a b
    → is_dark parse_date a seen ≡ true
    → is_dark parse_date b seen ≡ true
is_dark_mono parse_date none b seen h d = ground (arith, d)
is_dark_mono parse_date (some a) (some b) none h d = d
is_dark_mono parse_date (some a) (some b) (some seen) h d =
    ground (arith, d, h, -ℤ_parts a (pos 1200000), -ℤ_parts b (pos 1200000))
is_dark_mono parse_date (some a) none seen h d = elim h [ ]

-- With the same signal and track, a vessel that is dark at a replay time is dark at each later one.
pub vessel_at_mono :
    (parse_date : String → Option ℤ) (signal : Signal) (vessel_id : Option String)
    (track : Option VesselTrack) (earlier later : Option String)
    → IsLater (cutoff parse_date (truthy? earlier)) (cutoff parse_date (truthy? later))
    → (vessel_at parse_date signal vessel_id track earlier).dark ≡ true
    → (vessel_at parse_date signal vessel_id track later).dark ≡ true
unfolding vessel_at
vessel_at_mono parse_date signal vessel_id track earlier later h d =
    is_dark_mono parse_date (cutoff parse_date (truthy? earlier))
      (cutoff parse_date (truthy? later)) (parse_date (last_seen track signal)) h d

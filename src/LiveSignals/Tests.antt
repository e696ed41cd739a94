-- ===== src/LiveSignals/Tests.antt =====
-- The bound on two signals of one type, of which one may stay.
use react_ai_healthycare.Base.{
  if◌then◌else◌, ◌==◌, string_eq, true, Elem, ◌≡◌, ◌⊎◌, inl, String, [], ◌∷◌, Option, some, ℕ, ◌≤◌,
  refl, length, values,
}
use react_ai_healthycare.Base.Int.{ℤ, pos}
use react_ai_healthycare.LiveSignals.{
  sort_signals_newest_first, prune_signal_map_by_type, merge_signals, is_type, newer_first,
}
use react_ai_healthycare.Api.Json.{null, end}
use react_ai_healthycare.Api.Enums.{SignalType, wildfire, manual}
use react_ai_healthycare.Api.Records.{Signal}
use react_ai_healthycare.LiveSignals.Newest.{merge_signals_newest}
use react_ai_healthycare.LiveSignals.Bounds.{of_type, merge_signals_bound}

abbrev fire : String → Signal
fire id = record {
  id = id;
  source = manual;
  signal_type = wildfire;
  external_id = id;
  lat = null;
  lng = null;
  altitude = null;
  speed = null;
  heading = null;
  magnitude = null;
  raw_payload = end;
  occurred_at = "";
  ingested_at = "";
}

abbrev at_zero : String → Option ℤ
at_zero text = some (pos 0)

abbrev one_each : SignalType → Option ℕ
one_each t = some 1

merge_signals_bound_example :
    length (
      of_type wildfire
        (values (merge_signals at_zero (("a", fire "a") ∷ []) (fire "b" ∷ []) one_each)))
    ≤ 1
merge_signals_bound_example =
    merge_signals_bound at_zero one_each (("a", fire "a") ∷ []) (fire "b" ∷ []) wildfire 0
      (refl, tt) refl

-- The number of an hour in place of a date, and the fire of the later hour.
abbrev hours : String → Option ℤ
hours text = some (if text == "2" then pos 2 else pos 1)

abbrev fire_at : String → String → Signal
fire_at id hour = record (fire id) { occurred_at = hour }

later_kept :
    values (merge_signals hours (("a", fire_at "a" "1") ∷ []) (fire_at "b" "2" ∷ []) one_each)
    ≡ fire_at "b" "2" ∷ []
unfolding merge_signals prune_signal_map_by_type sort_signals_newest_first
later_kept = refl

merge_signals_newest_example :
    Elem
      (fire_at "a" "1")
      (values (merge_signals hours (("a", fire_at "a" "1") ∷ []) (fire_at "b" "2" ∷ []) one_each))
    ⊎ ((k : Signal)
        → Elem k (
            values
              (merge_signals hours (("a", fire_at "a" "1") ∷ []) (fire_at "b" "2" ∷ []) one_each))
        → is_type wildfire k.signal_type ≡ true
        → newer_first hours k (fire_at "a" "1") ≡ true)
merge_signals_newest_example =
    merge_signals_newest hours one_each (("a", fire_at "a" "1") ∷ []) (fire_at "b" "2" ∷ [])
      (fire_at "a" "1") (refl, tt) (refl, tt) (inl refl)

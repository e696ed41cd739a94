-- ===== src/CacheEvents/Laws.antt =====
-- What an event refreshes and how its texts read, of frontend/src/hooks/useSseEvents.ts and
-- frontend/src/utils/humanize.ts.
use Prim.Native.Char.{Char, code}
use mathlib.Core.Path.{◌≡◌, refl}
use mathlib.Core.Bool.{◌||◌}
use native.Mathlib.Omega.{arith}
use react_ai_healthycare.Base.{
  String, List, [], ◌∷◌, Option, none, some, Bool, true, false, if◌then◌else◌, ◌==◌, string_eq, eqb,
}
use react_ai_healthycare.Api.Json.{Json}
use react_ai_healthycare.CacheEvents.{
  humanize, Toast, Response, ServerEvent, rule_fired, alert_transitioned, task_created,
  task_updated, site_risk_updated, task_transitioned, geofence_breach, posture_changed,
  chokepoint_updated, planning_doctrine_updated, prosecution_started, prosecution_step_added,
  unknown, on_event,
}

has_underscore : String → Bool
has_underscore String.[] = false
has_underscore (String.◌∷◌ c s) = eqb (code c) 95 || has_underscore s

spaced : (c : Char) (b : Bool) → eqb (code c) 95 ≡ b → eqb (code (if b then " " else c)) 95 ≡ false
spaced c true e = refl
spaced c false e = e

-- No underscore is left in a label.
humanize-has_underscore : (s : String) → has_underscore (humanize s) ≡ false
unfolding humanize has_underscore
humanize-has_underscore String.[] = refl
humanize-has_underscore (String.◌∷◌ c s) =
    ground (arith, humanize-has_underscore s, spaced c (eqb (code c) 95) refl)

-- A query key that starts with the name is invalidated.
refreshes : String → List (List String) → Bool
refreshes name [] = false
refreshes name ([] ∷ keys) = refreshes name keys
refreshes name ((key ∷ rest) ∷ keys) = name == key || refreshes name keys

shows : Option Toast → Bool
shows none = false
shows (some _) = true

-- An event that refreshes the risk scores refreshes the swimlane and shows a toast.
scored_shown :
    (percent : Json → String) (e : ServerEvent)
    → refreshes "risk_scores" (Response.invalidated (on_event percent e)) ≡ true
    → (refreshes "analytics" (Response.invalidated (on_event percent e)) ≡ true)
      × (shows (Response.toast (on_event percent e)) ≡ true)
unfolding on_event refreshes shows
scored_shown percent (rule_fired _ _ _ _ _) _ = (refl, refl)
scored_shown percent (alert_transitioned _ _ _ _) _ = (refl, refl)
scored_shown percent (task_created _ _ _) _ = (refl, refl)
scored_shown percent task_updated h = ground arith
scored_shown percent site_risk_updated h = ground arith
scored_shown percent (task_transitioned _ _ _) _ = (refl, refl)
scored_shown percent (geofence_breach _ _ _) h = ground arith
scored_shown percent (posture_changed _ _) h = ground arith
scored_shown percent (chokepoint_updated _ _ _) h = ground arith
scored_shown percent (planning_doctrine_updated _) h = ground arith
scored_shown percent (prosecution_started _) h = ground arith
scored_shown percent (prosecution_step_added _) h = ground arith
scored_shown percent unknown h = ground arith

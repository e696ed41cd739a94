-- ===== src/Replay.antt =====
-- frontend/src/context/ReplayContext.tsx and replayTransport.ts: the replay clock. The state of the
-- provider with the interval that its effect keeps, and one function per control. Dates are the
-- browser's: a record of `getTime`, none for an invalid date, and `toISOString`, none where it throws.
pub mod Laws
pub mod Playback
pub mod Past
pub mod Steps
pub mod Guard
mod Tests
use react_ai_healthycare.Base.{
  ℕ, ◌*◌, String, List, [], ◌∷◌, Option, none, some, Bool, true, false, ◌≡◌, if◌then◌else◌, truthy?,
}
use react_ai_healthycare.Base.Int.{ℤ, pos, negsuc, ◌-ℤ◌, ◌+ℤ◌, ◌≤ℤ◌, leb_ℤ, min_ℤ, max_ℤ}

abbrev pub tick_ms : ℕ
tick_ms = 500

abbrev pub replay_step_minutes : ℕ
replay_step_minutes = 5

abbrev pub replay_step_lookback_days : ℕ
replay_step_lookback_days = 30

pub data PlaybackRate : Type 0 where
  rate_1 rate_5 rate_15 rate_60 : PlaybackRate

-- simulated minutes per second
abbrev pub minutes : PlaybackRate → ℕ
minutes rate_1 = 1
minutes rate_5 = 5
minutes rate_15 = 15
minutes rate_60 = 60

-- what a date can hold: 8.64e15 ms on either side of 1970
abbrev pub IsTime : ℤ → Type 0
IsTime t = (negsuc 8639999999999999 ≤ℤ t) × (t ≤ℤ pos 8640000000000000)

pub record Dates : Type 0 where
  pub get_time : String → Option ℤ
  pub to_iso : ℤ → Option String
  pub get_time-IsTime : (s : String) (t : ℤ) → get_time s ≡ some t → IsTime t
  pub to_iso_lem : (t : ℤ) → IsTime t → (s : String) × (to_iso t ≡ some s)
  pub get_time-to_iso : (t : ℤ) (s : String) → to_iso t ≡ some s → get_time s ≡ some t
  pub empty_invalid : get_time "" ≡ none

-- `interval` has the rate that the running interval was made with.
pub record Replay : Type 0 where
  pub as_of : Option String
  pub is_playing : Bool
  pub playback_rate : PlaybackRate
  pub as_of_ref : Option String
  pub interval : Option PlaybackRate

abbrev pub initial : Replay
initial = record {
  as_of = none;
  is_playing = false;
  playback_rate = rate_5;
  as_of_ref = none;
  interval = none;
}

-- `if (!current) …`: what is done with a value that is there, or else the other result.
abbrev pub where_some {ℓ} : {A : Type ℓ} → Option A → (A → Replay) → Replay → Replay
where_some none f s = s
where_some (some a) f s = f a

unfoldable pub set_as_of : Option String → Replay → Replay
set_as_of v s = record s { is_playing = false; as_of_ref = v; as_of = v }

unfoldable pub play : Replay → Replay
play s = where_some (truthy? s.as_of_ref) (λ c. record s { is_playing = true }) s

unfoldable pub pause : Replay → Replay
pause s = record s { is_playing = false }

unfoldable pub set_playback_rate : PlaybackRate → Replay → Replay
set_playback_rate rate s = record s { playback_rate = rate }

-- The effect on `isPlaying` and `playbackRate`, after a render.
unfoldable pub commit : Replay → Replay
commit s = record s { interval = if s.is_playing then some s.playback_rate else none }

abbrev pub advance_ms : PlaybackRate → ℕ
advance_ms rate = minutes rate * tick_ms * 60

abbrev pub floor_ms : ℤ → ℤ
floor_ms now_ms = now_ms -ℤ pos (replay_step_lookback_days * 86400000)

-- A tick comes from the interval that is there, with the rate it closes over.
pub data Event : Type 0 where
  picks : Option String → Event
  plays pauses commits : Event
  sets_rate : PlaybackRate → Event
  steps_forward steps_backward ticks : (now_ms : ℤ) → Event

module _ (dates : Dates) where
  -- An error thrown by `toISOString` leaves the state as it is.
  abbrev pub move_to : Option String → Replay → Replay
  move_to none s = s
  move_to (some next) s = record s { as_of_ref = some next; as_of = some next }

  -- `NaN >= nowMs` is false, and then `toISOString` throws.
  abbrev pub advance : PlaybackRate → ℤ → Option ℤ → Replay → Replay
  advance rate now_ms none s = s
  advance rate now_ms (some current_ms) s =
      if leb_ℤ now_ms (current_ms +ℤ pos (advance_ms rate))
      then record s { as_of_ref = none; as_of = none; is_playing = false }
      else move_to (dates.to_iso (current_ms +ℤ pos (advance_ms rate))) s

  unfoldable pub on_tick : PlaybackRate → ℤ → Replay → Replay
  on_tick rate now_ms s =
      where_some (truthy? s.as_of_ref) (λ current. advance rate now_ms (dates.get_time current) s)
        (record s { is_playing = false })

  abbrev pub set_time : Option String → Replay → Replay
  set_time none s = s
  set_time (some next) s = record s { is_playing = false; as_of_ref = some next; as_of = some next }

  abbrev pub forward_from : ℤ → Option ℤ → Replay → Replay
  forward_from now_ms none s = s
  forward_from now_ms (some current_ms) s =
      set_time
        (dates.to_iso
          (min_ℤ (current_ms +ℤ pos (replay_step_minutes * 60000)) (now_ms -ℤ pos 1000)))
        s

  unfoldable pub step_forward : ℤ → Replay → Replay
  step_forward now_ms s =
      where_some (truthy? s.as_of_ref) (λ current. forward_from now_ms (dates.get_time current) s) s

  abbrev pub backward_from : ℤ → Option ℤ → Replay → Replay
  backward_from now_ms none s = s
  backward_from now_ms (some current_ms) s =
      if leb_ℤ current_ms (floor_ms now_ms)
      then s
      else set_time
          (dates.to_iso (max_ℤ (current_ms -ℤ pos (replay_step_minutes * 60000)) (floor_ms now_ms)))
          s

  unfoldable pub step_backward : ℤ → Replay → Replay
  step_backward now_ms s =
      where_some (truthy? s.as_of_ref) (λ current. backward_from now_ms (dates.get_time current) s)
        s

  abbrev pub step : Event → Replay → Replay
  step (picks v) s = set_as_of v s
  step plays s = play s
  step pauses s = pause s
  step commits s = commit s
  step (sets_rate rate) s = set_playback_rate rate s
  step (steps_forward now_ms) s = step_forward now_ms s
  step (steps_backward now_ms) s = step_backward now_ms s
  step (ticks now_ms) s = where_some s.interval (λ rate. on_tick rate now_ms s) s

  abbrev pub run : List Event → Replay → Replay
  run [] s = s
  run (e ∷ es) s = run es (step e s)

-- ===== src/Sse/EventSource.antt =====
-- frontend/src/hooks/useEventSource.ts: the stream of task, alert and planning events.
use react_ai_healthycare.Base.{
  Bool, String, List, [], ◌∷◌, ◌++◌, Option, none, some, true, false, if◌then◌else◌, any, ◌==◌,
  string_eq,
}
use react_ai_healthycare.Api.Json.{Json}
use react_ai_healthycare.Freshness.{ConnectionStatus, connecting, connected, disconnected}
use react_ai_healthycare.Sse.Backoff.{retry_reset_delay_ms}
use react_ai_healthycare.Sse.Link.{Link, start}
use react_ai_healthycare.Sse.Link

pub record SseEvent : Type 0 where
  pub event : String
  pub payload : Json

abbrev pub live_event_names : List String
live_event_names =
    "task_created" ∷ "task_updated" ∷ "task_transitioned" ∷ "rule_fired" ∷ "alert_transitioned"
    ∷ "geofence_breach" ∷ "site_risk_updated" ∷ "posture_changed" ∷ "planning_doctrine_updated"
    ∷ "chokepoint_updated" ∷ "prosecution_started" ∷ "prosecution_step_added" ∷ []

unfoldable pub is_live_event_name : String → Bool
is_live_event_name name = any (λ n. n == name) live_event_names

-- `delivered` lists what `onEvent` was called with, the latest last.
pub record EventSourceState : Type 0 where
  pub link : Link
  pub status : ConnectionStatus
  pub delivered : List SseEvent

-- the effect, with what the delay ref holds
unfoldable pub mount : EventSourceState → EventSourceState
mount s = record s { link = start s.link.delay; status = connecting }

unfoldable pub initial : EventSourceState
initial = record {
  link = record {
    awaiting = false;
    is_open = false;
    timer = none;
    delay = retry_reset_delay_ms;
    ended = true;
  };
  status = disconnected;
  delivered = [];
}

unfoldable pub on_timer : EventSourceState → EventSourceState
unfolding Link.on_timer
on_timer s = elim s.link.timer [
  | none ↦ s
  | some d ↦ record s { link = Link.on_timer s.link; status = connecting }
]

unfoldable pub on_token : EventSourceState → EventSourceState
unfolding Link.on_token
on_token s = record s { link = Link.on_token s.link }

unfoldable pub on_token_failed : EventSourceState → EventSourceState
unfolding Link.on_token_failed
on_token_failed s = record s {
  link = Link.on_token_failed s.link;
  status = if s.link.ended then s.status else disconnected;
}

unfoldable pub on_connected : EventSourceState → EventSourceState
unfolding Link.on_connected
on_connected s = record s { link = Link.on_connected s.link; status = connected }

-- A message of one of the names; `parsed` is what `JSON.parse` gives, none if it throws.
unfoldable pub on_message : String → Option Json → EventSourceState → EventSourceState
on_message name parsed s =
    if is_live_event_name name
    then elim parsed [
      | none ↦ s
      | some payload ↦ record s {
        delivered = s.delivered ++ record { event = name; payload = payload } ∷ [];
      }
    ]
    else s

unfoldable pub on_error : EventSourceState → EventSourceState
unfolding Link.on_error
on_error s = record s { link = Link.on_error s.link; status = disconnected }

unfoldable pub cleanup : EventSourceState → EventSourceState
unfolding Link.cleanup
cleanup s = record s { link = Link.cleanup s.link; status = disconnected }

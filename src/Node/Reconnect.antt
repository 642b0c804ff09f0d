-- ===== src/Node/Reconnect.antt =====
-- internal/node/reconnect_state.go: the phases of an Agent's connection to its Gateway and the
-- delay before the next attempt. A duration is a number of nanoseconds; the code never makes a
-- negative one, so the guard `backoff <= 0` is a test for 0.
pub mod Bounds
pub mod Trace
mod Tests
use Prim.Native.String.{◌++◌}
use asterferry.Base.{
  ℕ, ◌*◌, Bool, true, false, ◌||◌, List, [], ◌∷◌, String, Result, ok, err, ltb, if◌then◌else◌, ◌==◌,
  nat_keyed,
}

pub data Phase : Type 0 where
  disconnected dialing handshaking admitting serving backing_off : Phase

-- `other` stands for a value of the underlying uint8 that names no event.
pub data Event : Type 0 where
  start_dial dial_failed connected handshake_failed start_admission : Event
  admission_rejected admitted serving_ended canceled other : Event

abbrev pub second : ℕ
second = 1000000000

abbrev pub max_agent_reconnect_backoff : ℕ
max_agent_reconnect_backoff = 30000000000

pub record ReconnectState : Type 0 where
  pub phase : Phase
  pub backoff : ℕ

unfoldable pub new_agent_reconnect_state : ReconnectState
new_agent_reconnect_state = record { phase = disconnected; backoff = second }

pub phase_text : Phase → String
phase_text disconnected = "disconnected"
phase_text dialing = "dialing"
phase_text handshaking = "handshaking"
phase_text admitting = "admitting"
phase_text serving = "serving"
phase_text backing_off = "backoff"

pub event_text : Event → String
event_text start_dial = "start-dial"
event_text dial_failed = "dial-failed"
event_text connected = "connected"
event_text handshake_failed = "handshake-failed"
event_text start_admission = "admitting"
event_text admission_rejected = "admission-rejected"
event_text admitted = "admitted"
event_text serving_ended = "serving-ended"
event_text canceled = "canceled"
event_text other = "unknown"

pub invalid : ReconnectState → Event → String
unfolding phase_text event_text
invalid s event =
    "cannot apply reconnect event " ++ (event_text event ++ (" in phase " ++ phase_text s.phase))

abbrev is_phase : Phase → Phase → Bool
is_phase disconnected disconnected = true
is_phase dialing dialing = true
is_phase handshaking handshaking = true
is_phase admitting admitting = true
is_phase serving serving = true
is_phase backing_off backing_off = true
is_phase _ _ = false

-- One case of the `switch`: the guard, then the new state.
abbrev when_phase : Bool → ReconnectState → Event → ReconnectState → Result String ReconnectState
when_phase true s event t = ok t
when_phase false s event t = err (invalid s event)

-- `transition`: the new state, or the error, with the state left as it was.
unfoldable pub transition : ReconnectState → Event → Result String ReconnectState
transition s start_dial =
    when_phase (is_phase s.phase disconnected || is_phase s.phase backing_off) s start_dial
      (record s { phase = dialing })
transition s dial_failed =
    when_phase (is_phase s.phase dialing) s dial_failed (record s { phase = backing_off })
transition s connected =
    when_phase (is_phase s.phase dialing) s connected (record s { phase = handshaking })
transition s handshake_failed =
    when_phase (is_phase s.phase handshaking) s handshake_failed (record s { phase = backing_off })
transition s start_admission =
    when_phase (is_phase s.phase handshaking) s start_admission (record s { phase = admitting })
transition s admission_rejected =
    when_phase (is_phase s.phase admitting) s admission_rejected (record s { phase = backing_off })
transition s admitted =
    when_phase (is_phase s.phase admitting) s admitted
      (record s { phase = serving; backoff = second })
transition s serving_ended =
    when_phase (is_phase s.phase serving) s serving_ended (record s { phase = backing_off })
transition s canceled = ok (record s { phase = disconnected })
transition s other = err (invalid s other)

-- `nextWait`: the delay to wait now, and the state with the next one.
unfoldable pub next_wait : ReconnectState → ℕ × ReconnectState
next_wait s = if s.backoff == 0 then (second, s) else (
  s.backoff,
  (if ltb s.backoff max_agent_reconnect_backoff
      then (let doubled = s.backoff * 2 in
          record s {
            backoff =
                if ltb max_agent_reconnect_backoff doubled
                then max_agent_reconnect_backoff
                else doubled;
          })
      else s),
)

-- What the Agent's loop does with the state: it applies events and asks for delays. An event that is
-- refused leaves the state alone.
pub data Call : Type 0 where
  apply : Event → Call
  wait : Call

abbrev after : ReconnectState → Result String ReconnectState → ReconnectState
after s (ok t) = t
after s (err e) = s

unfoldable pub step : ReconnectState → Call → ReconnectState
unfolding transition next_wait
step s (apply event) = after s (transition s event)
step s wait = (next_wait s).1

unfoldable pub run : ReconnectState → List Call → ReconnectState
run s [] = s
run s (c ∷ cs) = run (step s c) cs

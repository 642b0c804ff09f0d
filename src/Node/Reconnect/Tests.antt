-- ===== src/Node/Reconnect/Tests.antt =====
-- Tests and instances for the reconnect state.
use asterferry.Base.{◌≡◌, refl, ◌≤◌, List, [], ◌∷◌, err}
use asterferry.Node.Reconnect.{
  disconnected, dialing, serving, start_dial, dial_failed, connected, start_admission, admitted,
  Call, apply, wait, new_agent_reconnect_state, transition, next_wait, step, run, second,
  max_agent_reconnect_backoff, invalid,
}
use asterferry.Node.Reconnect.Bounds.{next_wait_bounds}
use asterferry.Node.Reconnect.Trace.{Move, Subsequence, transition-Move, run-serving}

abbrev first_session : List Call
first_session =
    apply start_dial
    ∷ apply dial_failed
    ∷ wait
    ∷ apply start_dial
    ∷ apply connected
    ∷ apply start_admission
    ∷ apply admitted
    ∷ []

refused_text :
    transition new_agent_reconnect_state connected
    ≡ err "cannot apply reconnect event connected in phase disconnected"
unfolding transition new_agent_reconnect_state invalid
refused_text = refl

first_session_serves : (run new_agent_reconnect_state first_session).phase ≡ serving
unfolding run step new_agent_reconnect_state
first_session_serves = refl

run-serving_example :
    Subsequence (start_dial ∷ connected ∷ start_admission ∷ admitted ∷ []) first_session
run-serving_example = run-serving first_session first_session_serves

transition-Move_example : Move disconnected start_dial dialing
unfolding new_agent_reconnect_state transition
transition-Move_example =
    (transition-Move new_agent_reconnect_state start_dial dialing).0
      (record new_agent_reconnect_state { phase = dialing }, refl, refl)

next_wait_bounds_example :
    let delay = (next_wait (run new_agent_reconnect_state first_session)).0 in
    (second ≤ delay) × (delay ≤ max_agent_reconnect_backoff)
next_wait_bounds_example = next_wait_bounds first_session

-- ===== src/Node/Reconnect/Trace.antt =====
-- The diagram of the reconnect phases, and what a run must have seen to be in one.
use asterferry.Base.{◌≡◌, refl, ◌↔◌, subst, List, [], ◌∷◌, String, Result, ok, err, arith}
use asterferry.Node.Reconnect.{
  ReconnectState, Phase, disconnected, dialing, handshaking, admitting, serving, backing_off, Event,
  start_dial, dial_failed, connected, handshake_failed, start_admission, admission_rejected,
  admitted, serving_ended, canceled, Call, apply, wait, new_agent_reconnect_state, transition,
  next_wait, step, run, second, after,
}

-- The allowed moves, as a relation.
pub data Move : Phase → Event → Phase → Type 0 where
  dial_first : Move disconnected start_dial dialing
  dial_again : Move backing_off start_dial dialing
  fail_dial : Move dialing dial_failed backing_off
  connect : Move dialing connected handshaking
  fail_handshake : Move handshaking handshake_failed backing_off
  begin_admission : Move handshaking start_admission admitting
  refuse : Move admitting admission_rejected backing_off
  admit : Move admitting admitted serving
  end_serving : Move serving serving_ended backing_off
  cancel : {p : Phase} → Move p canceled disconnected

ruleset moves = (
  dial_first, dial_again, fail_dial, connect, fail_handshake, begin_admission, refuse, admit,
  end_serving, cancel,
)

sound_at :
    (p : Phase) (s t : ReconnectState) (e : Event)
    → s.phase ≡ p
    → transition s e ≡ ok t
    → Move p e t.phase
unfolding transition
sound_at p s t e q h = grind (arith, moves)

complete_at :
    {p q : Phase} {e : Event} (s : ReconnectState)
    → Move p e q
    → s.phase ≡ p
    → (t : ReconnectState) × (transition s e ≡ ok t) × (t.phase ≡ q)
unfolding transition
complete_at s dial_first h = (record s { phase = dialing }, ground arith, refl)
complete_at s dial_again h = (record s { phase = dialing }, ground arith, refl)
complete_at s fail_dial h = (record s { phase = backing_off }, ground arith, refl)
complete_at s connect h = (record s { phase = handshaking }, ground arith, refl)
complete_at s fail_handshake h = (record s { phase = backing_off }, ground arith, refl)
complete_at s begin_admission h = (record s { phase = admitting }, ground arith, refl)
complete_at s refuse h = (record s { phase = backing_off }, ground arith, refl)
complete_at s admit h = (record s { phase = serving; backoff = second }, ground arith, refl)
complete_at s end_serving h = (record s { phase = backing_off }, ground arith, refl)
complete_at s cancel h = (record s { phase = disconnected }, refl, refl)

-- `transition` accepts an event exactly when the diagram has a move for it out of the current phase,
-- and then it takes that move.
pub transition-Move :
    (s : ReconnectState) (e : Event) (q : Phase)
    → ((t : ReconnectState) × (transition s e ≡ ok t) × (t.phase ≡ q)) ↔ Move s.phase e q
transition-Move s e q =
    (λ r. subst_phase q r.2 (sound_at s.phase s r.0 e refl r.1), λ m. complete_at s m refl)
  where
    subst_phase : (p : Phase) {p' : Phase} → p' ≡ p → Move s.phase e p' → Move s.phase e p
    subst_phase p h m = rw (← h) m

-- The events of the list occur among the calls, in that order.
pub data Subsequence : List Event → List Call → Type 0 where
  nothing : {cs : List Call} → Subsequence [] cs
  skip : {es : List Event} {cs : List Call} {c : Call} → Subsequence es cs → Subsequence es (c ∷ cs)
  take :
      {es : List Event} {cs : List Call} {e : Event}
      → Subsequence es cs
      → Subsequence (e ∷ es) (apply e ∷ cs)

drop_first :
    {e : Event} {es : List Event} {cs : List Call} → Subsequence (e ∷ es) cs → Subsequence es cs
drop_first (skip h) = skip (drop_first h)
drop_first (take h) = skip h

-- What must still happen before a connection in this phase serves.
abbrev pub remaining : Phase → List Event
remaining disconnected = start_dial ∷ connected ∷ start_admission ∷ admitted ∷ []
remaining backing_off = start_dial ∷ connected ∷ start_admission ∷ admitted ∷ []
remaining dialing = connected ∷ start_admission ∷ admitted ∷ []
remaining handshaking = start_admission ∷ admitted ∷ []
remaining admitting = admitted ∷ []
remaining serving = []

Move-remaining :
    {p q : Phase} {e : Event} {cs : List Call}
    → Move p e q
    → Subsequence (remaining q) cs
    → Subsequence (remaining p) (apply e ∷ cs)
Move-remaining dial_first h = take h
Move-remaining dial_again h = take h
Move-remaining fail_dial h = skip (drop_first h)
Move-remaining connect h = take h
Move-remaining fail_handshake h = skip (drop_first (drop_first h))
Move-remaining begin_admission h = take h
Move-remaining refuse h = skip (drop_first (drop_first (drop_first h)))
Move-remaining admit h = take h
Move-remaining end_serving h = nothing
Move-remaining (cancel {p}) h = skip (suffix p h)
  where
    suffix :
        (p : Phase) {cs : List Call}
        → Subsequence (remaining disconnected) cs
        → Subsequence (remaining p) cs
    suffix disconnected h = h
    suffix backing_off h = h
    suffix dialing h = drop_first h
    suffix handshaking h = drop_first (drop_first h)
    suffix admitting h = drop_first (drop_first (drop_first h))
    suffix serving h = nothing

next_wait-phase : (s : ReconnectState) → (next_wait s).1.phase ≡ s.phase
unfolding next_wait
next_wait-phase s = ground arith

apply-remaining :
    (s : ReconnectState) (e : Event) {cs : List Call}
    → Subsequence (remaining (step s (apply e)).phase) cs
    → Subsequence (remaining s.phase) (apply e ∷ cs)
unfolding step
apply-remaining s e h = go (transition s e) refl h
  where
    go :
        (r : Result String ReconnectState)
        → transition s e ≡ r
        → {cs : List Call} → Subsequence (remaining (after s r).phase) cs
        → Subsequence (remaining s.phase) (apply e ∷ cs)
    go (ok t) q h = Move-remaining (sound_at s.phase s t e refl q) h
    go (err _) q h = skip h

run-remaining :
    (s : ReconnectState) (cs : List Call)
    → (run s cs).phase ≡ serving
    → Subsequence (remaining s.phase) cs
unfolding run step
run-remaining s [] h = rw h nothing
run-remaining s (apply e ∷ cs) h = apply-remaining s e (run-remaining (step s (apply e)) cs h)
run-remaining s (wait ∷ cs) h = skip (
    subst (λ p. Subsequence (remaining p) cs) (next_wait-phase s)
      (run-remaining (step s wait) cs h))

-- A connection that starts disconnected serves only after it was dialled, connected, asked for
-- admission and admitted, in that order, whatever other events and waits came between.
pub run-serving :
    (cs : List Call)
    → (run new_agent_reconnect_state cs).phase ≡ serving
    → Subsequence (start_dial ∷ connected ∷ start_admission ∷ admitted ∷ []) cs
unfolding new_agent_reconnect_state
run-serving cs h = run-remaining new_agent_reconnect_state cs h

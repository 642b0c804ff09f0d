-- ===== src/Controller/Assignments/Runs.antt =====
-- Every sequence of the calls of Controller/Assignments, from the empty tables.
use asterferry.Base.{
  ℕ, Bool, true, ◌||◌, ◌==◌, ◌+◌, leb, ◌≡◌, ◌⊎◌, inl, inr, some, [], ◌∷◌, List, String, Result, ok,
  err, string_keyed, nat_keyed, Option-cases, Result-cases, arith, subst, ◌≢◌, ◌≤◌,
}
use asterferry.Base.Maps.{Map, lookup}
use asterferry.Domain.Types.{Assignment, GatewaySpec}
use asterferry.Domain.Validation.{Platform}
use asterferry.Controller.Scheduler.{is_inactive}
use asterferry.Controller.Obfuscation.{Cipher}
use asterferry.Controller.Assignments.{
  Ack, has_applied, participants_applied, AssignmentError, Row, Store, Request, apply_node_result,
  update_assignment_state, delete_assignment, prune_history,
}
use asterferry.Controller.Assignments.Checks.{Tables}
use asterferry.Controller.Assignments.Put.{put_assignment}
use asterferry.Controller.Assignments.Exclusive.{Alone, SharesService, SharesBinding, Exclusive}
use asterferry.Controller.Assignments.Derived.{
  bump_assignments_for_service, quarantine_assignments_for_node, update_assignment_endpoints,
}
use asterferry.Controller.Assignments.Rewritten.{
  apply_node_result-Loops, bump_assignments-Loops, quarantine_assignments-Loops,
  update_endpoints-Loops,
}
use asterferry.Controller.Assignments.Calls.{
  put_assignment-Exclusive, update_assignment_state-Exclusive, delete_assignment-Exclusive,
}

-- A call, with the tables that it finds, the cipher with its nonces, and the time; a pruning has the
-- retention of idempotency keys last
pub data Call : Type 0 where
  put : Cipher → Tables → Assignment → String → ℕ → ℕ → Call
  node_result : String → ℕ → Bool → String → ℕ → Call
  set_state : String → String → String → ℕ → ℕ → Call
  remove : String → String → ℕ → ℕ → Call
  service_changed node_gone : String → ℕ → Call
  gateway_changed : GatewaySpec → ℕ → Call
  prune : ℕ → ℕ → Call

-- An error leaves the tables as they were.
unfoldable pub committed : Store → Result AssignmentError Store → Store
committed s (ok s') = s'
committed s (err e) = s

module _ (platform : Platform) (hash : Request → String) where
  unfoldable pub answer : Store → Call → Result AssignmentError Store
  answer s (put cipher tables a key if_match now) =
      put_assignment platform cipher hash tables a key if_match now s
  answer s (node_result node_id generation applied error_code now) =
      apply_node_result node_id generation applied error_code now s
  answer s (set_state id state key if_match now) =
      update_assignment_state hash id state key if_match now s
  answer s (remove id key if_match now) = delete_assignment hash id key if_match now s
  answer s (service_changed service_id now) = bump_assignments_for_service service_id now s
  answer s (node_gone node_id now) = quarantine_assignments_for_node node_id now s
  answer s (gateway_changed spec now) = update_assignment_endpoints spec now s
  answer s (prune now retention) = ok (prune_history now retention s)

  unfoldable pub run : Store → List Call → Store
  run s [] = s
  run s (call ∷ calls) = run (committed s (answer s call)) calls

module _ (platform : Platform) (hash : Request → String) where
  answer-Exclusive :
      (s : Store) (call : Call) (s' : Store)
      → answer platform hash s call ≡ ok s'
      → Exclusive s.rows
      → Exclusive s'.rows
  unfolding answer prune_history
  answer-Exclusive s (put cipher tables a key if_match now) s' h e =
      put_assignment-Exclusive platform cipher hash tables a key if_match now s s' h e
  answer-Exclusive s (node_result node_id generation applied error_code now) s' h e =
      (apply_node_result-Loops node_id generation applied error_code now s s' h).0 e
  answer-Exclusive s (set_state id state key if_match now) s' h e =
      update_assignment_state-Exclusive hash id state key if_match now s s' h e
  answer-Exclusive s (remove id key if_match now) s' h e =
      delete_assignment-Exclusive hash id key if_match now s s' h e
  answer-Exclusive s (service_changed service_id now) s' h e =
      (bump_assignments-Loops service_id now s s' h).0 e
  answer-Exclusive s (node_gone node_id now) s' h e =
      (quarantine_assignments-Loops node_id now s s' h).0 e
  answer-Exclusive s (gateway_changed spec now) s' h e =
      (update_endpoints-Loops spec now s s' h).0 e
  answer-Exclusive s (prune now retention) s' h e =
      let same : s.rows ≡ s'.rows = ground (arith) in subst Exclusive same e

  committed-Exclusive :
      (s : Store) (call : Call)
      → Exclusive s.rows
      → Exclusive (committed s (answer platform hash s call)).rows
  unfolding committed
  committed-Exclusive s call e = elim (Result-cases (answer platform hash s call)) [
    | inl (s', done) ↦
        let same : s' ≡ committed s (answer platform hash s call) = ground (arith, done) in
        subst (λ (s : Store). Exclusive s.rows) same (answer-Exclusive s call s' done e)
    | inr (error, refused) ↦
        let same : s ≡ committed s (answer platform hash s call) = ground (arith, refused) in
        subst (λ (s : Store). Exclusive s.rows) same e
  ]

  run-kept :
      (s : Store) (calls : List Call)
      → Exclusive s.rows
      → Exclusive (run platform hash s calls).rows
  unfolding run
  run-kept s [] e = e
  run-kept s (call ∷ calls) e =
      run-kept (committed s (answer platform hash s call)) calls (committed-Exclusive s call e)

-- A PruneHistory comes no later than its retention allows for a key of this time.
unfoldable pub spares : ℕ → Call → Bool
spares created (prune now retention) = retention == 0 || leb now (created + retention)
spares created (put cipher tables a given if_match now) = true
spares created (node_result node_id generation applied error_code now) = true
spares created (set_state id state given if_match now) = true
spares created (remove id given if_match now) = true
spares created (service_changed service_id now) = true
spares created (node_gone node_id now) = true
spares created (gateway_changed spec now) = true

abbrev pub empty_store : Store
empty_store = record { rows = []; keys = [] }

empty-Exclusive : Exclusive empty_store.rows
unfolding lookup
empty-Exclusive = record {
  lawful = λ id row found. absurd (cc);
  services = λ i j r q found_r found_q shared. absurd (cc);
  bindings = λ i j r q found_r found_q shared. absurd (cc);
}

-- A node has acknowledged an assignment as applied, in its generation or a later one.
abbrev pub AppliedBy : String → Row → Type 0
AppliedBy node_id row =
    (ack : Ack) × (lookup node_id row.acks ≡ some ack)
    × (ack.applied ≡ true)
    × (row.assignment.generation ≤ ack.generation)

-- An applied assignment has been acknowledged by both of its nodes, which differ; a degraded or draining
-- one has no public binding; a service is in one assignment; and a protocol, address and port of a
-- gateway is in one assignment.
pub record Orderly (rows : Map String Row) : Type 0 where
  pub applied :
      (id : String) (row : Row)
      → lookup id rows ≡ some row
      → row.assignment.state ≡ "applied"
      → (row.assignment.gateway_id ≢ row.assignment.agent_id)
        × AppliedBy row.assignment.gateway_id row
        × AppliedBy row.assignment.agent_id row
  pub inactive :
      (id : String) (row : Row)
      → lookup id rows ≡ some row
      → (row.assignment.state ≡ "degraded") ⊎ (row.assignment.state ≡ "draining")
      → row.assignment.bindings ≡ []
  pub services : Alone SharesService rows
  pub bindings : Alone SharesBinding rows

has_applied-AppliedBy :
    (node_id : String) (row : Row)
    → has_applied row.assignment.generation (lookup node_id row.acks) ≡ true
    → AppliedBy node_id row
unfolding has_applied
has_applied-AppliedBy node_id row h = elim (Option-cases (lookup node_id row.acks)) [
  | inl absent ↦ absurd (ground (arith, absent))
  | inr (ack, found) ↦ (ack, found, ground (arith, found), ground (arith, found))
]

Exclusive-Orderly : (rows : Map String Row) → Exclusive rows → Orderly rows
unfolding participants_applied is_inactive
Exclusive-Orderly rows e = record {
  applied = λ id row found applied.
      let both =
        (e.lawful id row found).applied
          (ground (arith, string_keyed.same_iff row.assignment.state "applied", applied)) in
      (
        λ same. absurd (
            ground (
              arith,
              both,
              string_keyed.same_iff row.assignment.gateway_id row.assignment.agent_id,
              same,
            )),
        has_applied-AppliedBy row.assignment.gateway_id row (ground (arith, both)),
        has_applied-AppliedBy row.assignment.agent_id row (ground (arith, both)),
      );
  inactive = λ id row found state. (e.lawful id row found).inactive (elim state [
    | inl degraded ↦ ground (arith, degraded, string_keyed.same_iff row.assignment.state "degraded")
    | inr draining ↦ ground (arith, draining, string_keyed.same_iff row.assignment.state "draining")
  ]);
  services = e.services;
  bindings = e.bindings;
}

-- After any calls of PutAssignment, applyNodeResult, UpdateAssignmentState, DeleteAssignment, PruneHistory
-- and the writes that follow a changed service, a changed gateway or a quarantined node, from empty tables and
-- whatever nodes, services and ciphers they find: an assignment that is applied has been acknowledged as
-- applied by both of its nodes, which differ, in its generation or a later one; one that is degraded or
-- draining has no public binding; no two assignments have a service in common, nor, on one gateway, a
-- protocol, address and port.
pub run-Orderly :
    (platform : Platform) (hash : Request → String) (calls : List Call)
    → Orderly (run platform hash empty_store calls).rows
run-Orderly platform hash calls =
    Exclusive-Orderly (run platform hash empty_store calls).rows
      (run-kept platform hash empty_store calls empty-Exclusive)

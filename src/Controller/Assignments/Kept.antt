-- ===== src/Controller/Assignments/Kept.antt =====
-- What the changes of a row in internal/controller/store_assignment_state.go keep of it.
use asterferry.Base.{
  ℕ, ◌+◌, Bool, true, false, ◌≡◌, ◌⊎◌, inl, inr, refl, some, [], String, ok, >>=-inverse, leb,
  if◌then◌else◌, ◌==◌, nat_keyed, string_keyed, ==→eq, Bool-cases, arith, subst, sym,
}
use asterferry.Base.Maps.{Map, lookup, insert, lookup-insert}
use asterferry.Text.{trim_space}
use asterferry.Controller.Scheduler.{is_inactive}
use asterferry.Controller.Assignments.{
  Ack, Row, has_applied, participants_applied, without_bindings, with_state, with_ack,
  after_applied, after_rejected, is_passed, apply_row, restated,
}
use asterferry.Controller.Assignments.Derived.{unacked}

-- An applied assignment has been applied by both of its nodes, in its generation or a later one, and a
-- degraded or draining one has no public bindings.
pub record Lawful (row : Row) : Type 0 where
  pub applied : (row.assignment.state == "applied") ≡ true → participants_applied row ≡ true
  pub inactive : is_inactive row.assignment ≡ true → row.assignment.bindings ≡ []

-- A changed row has the services of the row before, its gateway, and no other binding.
pub record Shrunk (row row' : Row) : Type 0 where
  pub services : row'.assignment.service_ids ≡ row.assignment.service_ids
  pub gateway : row'.assignment.gateway_id ≡ row.assignment.gateway_id
  pub bindings :
      (row'.assignment.bindings ≡ row.assignment.bindings) ⊎ (row'.assignment.bindings ≡ [])

abbrev pub Kept : Row → Row → Type 0
Kept row row' = Lawful row' × Shrunk row row'

without_bindings-Kept :
    (row : Row) → (row.assignment.state == "applied") ≡ false → Kept row (without_bindings row)
unfolding without_bindings
without_bindings-Kept row h = (
  record { applied = λ applied. absurd (ground arith); inactive = λ inactive. refl },
  record { services = refl; gateway = refl; bindings = inr refl },
)

-- A text is not two states.
pub not_both :
    (state other : String)
    → (state == other) ≡ true
    → (other == "applied") ≡ false
    → (state == "applied") ≡ false
not_both state other h other_false = ground (
  arith,
  ==→eq state other h,
  string_keyed.same_iff state "applied",
  string_keyed.same_iff other "applied",
)

applied-insert :
    (generation : ℕ) (id node_id : String) (ack : Ack) (acks : Map String Ack)
    → has_applied generation (some ack) ≡ true
    → has_applied generation (lookup id acks) ≡ true
    → has_applied generation (lookup id (insert node_id ack acks)) ≡ true
applied-insert generation id node_id ack acks new old =
    ground (arith, lookup-insert node_id id ack acks)

leb_refl : (n : ℕ) → leb n n ≡ true
leb_refl n = ground arith

-- The acknowledgement of one more node that has applied the generation
with_ack-participants :
    (node_id error_code : String) (row : Row)
    → participants_applied row ≡ true
    → participants_applied (with_ack node_id true error_code row) ≡ true
unfolding participants_applied with_ack has_applied
with_ack-participants node_id error_code row h =
    let generation = row.assignment.generation in
    let ack : Ack = record {
      generation = generation;
      applied = true;
      error_code = trim_space error_code;
    } in
    let current = leb_refl generation in
    let gateway =
      applied-insert generation row.assignment.gateway_id node_id ack row.acks current in
    let agent = applied-insert generation row.assignment.agent_id node_id ack row.acks current in
    ground (arith, gateway, agent)

abbrev pub written : String → ℕ → Row → Row
written state now row = record row {
  assignment = record row.assignment {
    state = state;
    revision = row.assignment.revision + 1;
    updated_at = now;
  };
}

with_state-written :
    (state : String) (now : ℕ) (row row' : Row)
    → with_state state now row ≡ ok row'
    → row' ≡ written state now row
unfolding with_state
with_state-written state now row row' h = ground arith

pub with_state-Kept :
    (state : String) (now : ℕ) (row row' : Row)
    → with_state state now row ≡ ok row'
    → ((state == "applied") ≡ true → participants_applied row ≡ true)
    → (is_inactive (written state now row).assignment ≡ true → row.assignment.bindings ≡ [])
    → Kept row row'
unfolding participants_applied
with_state-Kept state now row row' h applied inactive =
    subst (Kept row) (sym (with_state-written state now row row' h)) (
      record { applied = applied; inactive = inactive },
      record { services = refl; gateway = refl; bindings = inl refl },
    )

after_applied-Kept :
    (now : ℕ) (row row' : Row) → Lawful row → after_applied now row ≡ ok row' → Kept row row'
unfolding after_applied is_inactive
after_applied-Kept now row row' lawful h =
    let same : Shrunk row row = record { services = refl; gateway = refl; bindings = inl refl } in
    let stays : row ≡ row' → Kept row row' = λ e. subst (Kept row) e (lawful, same) in
    elim (Bool-cases (row.assignment.state == "degraded")) [
      | inl degraded ↦
          subst (Kept row) (ground arith)
            (without_bindings-Kept row (not_both row.assignment.state "degraded" degraded refl))
      | inr active ↦ elim (Bool-cases (row.assignment.state == "applied")) [
        | inl applied ↦ stays (ground arith)
        | inr waiting ↦ elim (Bool-cases (participants_applied row)) [
          | inl ready ↦
              with_state-Kept "applied" now row row' (ground arith) (λ e. ready)
                (λ inactive. absurd (ground arith))
          | inr missing ↦ stays (ground arith)
        ]
      ]
    ]

after_rejected-Kept : (now : ℕ) (row row' : Row) → after_rejected now row ≡ ok row' → Kept row row'
unfolding after_rejected without_bindings
after_rejected-Kept now row row' h = elim (Bool-cases (row.assignment.state == "degraded")) [
  | inl degraded ↦
      subst (Kept row) (ground arith)
        (without_bindings-Kept row (not_both row.assignment.state "degraded" degraded refl))
  | inr active ↦
      let kept =
        with_state-Kept "degraded" now (without_bindings row) row' (ground arith)
          (λ e. absurd (ground arith)) (λ inactive. refl) in
      (
        kept.0,
        record {
          services = kept.1.services;
          gateway = kept.1.gateway;
          bindings = inr (elim kept.1.bindings [ inl e ↦ e | inr e ↦ e ]);
        },
      )
]

pub apply_row-Kept :
    (node_id : String) (generation : ℕ) (applied : Bool) (error_code : String) (now : ℕ)
    (row row' : Row)
    → Lawful row
    → apply_row node_id generation applied error_code now row ≡ ok row'
    → Kept row row'
unfolding apply_row with_ack
apply_row-Kept node_id generation applied error_code now row row' lawful h =
    let same : Shrunk row row = record { services = refl; gateway = refl; bindings = inl refl } in
    let acked : Bool → Row = λ applied. with_ack node_id applied error_code row in
    let from_acked : (applied : Bool) → Kept (acked applied) row' → Kept row row' = λ applied kept.
      (
        kept.0,
        record { services = kept.1.services; gateway = kept.1.gateway; bindings = kept.1.bindings },
      ) in
    elim (Bool-cases (is_passed node_id generation row)) [
      | inl passed ↦ subst (Kept row) (ground arith) (lawful, same)
      | inr taken ↦ elim (Bool-cases applied) [
        | inl success ↦ from_acked true (
            after_applied-Kept now (acked true) row'
              (record {
                applied = λ e. with_ack-participants node_id error_code row (lawful.applied e);
                inactive = lawful.inactive;
              })
              (ground arith))
        | inr failure ↦ from_acked false (after_rejected-Kept now (acked false) row' (ground arith))
      ]
    ]

-- The row that restated writes, of an assignment that keeps its bindings and of one that does not
unacked-Kept :
    (state : String) (now : ℕ) (row : Row)
    → (state == "applied") ≡ false
    → is_inactive (written state now row).assignment ≡ false
    → Kept row (unacked (written state now row))
unacked-Kept state now row other active = (
  record { applied = λ e. absurd (ground arith); inactive = λ e. absurd (ground arith) },
  record { services = refl; gateway = refl; bindings = inl refl },
)

emptied-Kept :
    (state : String) (now : ℕ) (row : Row)
    → (state == "applied") ≡ false
    → Kept row (unacked (without_bindings (written state now row)))
unfolding without_bindings
emptied-Kept state now row other = (
  record { applied = λ e. absurd (ground arith); inactive = λ e. refl },
  record { services = refl; gateway = refl; bindings = inr refl },
)

pub restated-Kept :
    (state : String) (now : ℕ) (row row' : Row)
    → (state == "applied") ≡ false
    → restated state now row ≡ ok row'
    → Kept row row'
unfolding restated
restated-Kept state now row row' other h =
    let first =
      >>=-inverse (with_state state now row)
        (λ mid. ok (record mid {
          acks = [];
          assignment =
              (if is_inactive mid.assignment
                then (without_bindings mid).assignment
                else mid.assignment);
        }))
        h in
    let e = with_state-written state now row first.0 first.2 in
    elim (Bool-cases (is_inactive (written state now row).assignment)) [
      | inl inactive ↦
          subst (Kept row) (ground (arith, first.1, e)) (emptied-Kept state now row other)
      | inr active ↦
          subst (Kept row) (ground (arith, first.1, e)) (unacked-Kept state now row other active)
    ]

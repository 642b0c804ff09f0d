-- ===== src/Controller/Assignments/Raised.antt =====
-- What the derived writes of an assignment keep of it.
use asterferry.Base.{
  ℕ, ◌+◌, true, false, not, ◌&&◌, ◌||◌, ◌≡◌, inl, inr, refl, [], String, ok, ◌>>=◌, ◌==◌,
  string_keyed, nat_keyed, Bool-cases, arith, subst,
}
use asterferry.Base.Sets.{member}
use asterferry.Domain.Types.{GatewaySpec, ObfuscationPolicy}
use asterferry.Controller.Scheduler.{is_inactive}
use asterferry.Controller.Assignments.{
  Row, max_int64, with_state, without_bindings, participants_applied,
}
use asterferry.Controller.Assignments.Derived.{
  unacked, raised, bump_row, quarantine_row, same_obfuscation_policy, endpoint_of, with_gateway,
  endpoint_row,
}
use asterferry.Controller.Assignments.Kept.{Lawful, Kept, not_both, written}

unchanged-Kept : (row : Row) → Lawful row → Kept row row
unchanged-Kept row lawful =
    (lawful, record { services = refl; gateway = refl; bindings = inl refl })

inactive-unapplied :
    (row : Row) → is_inactive row.assignment ≡ true → (row.assignment.state == "applied") ≡ false
unfolding is_inactive
inactive-unapplied row h = elim (Bool-cases (row.assignment.state == "degraded")) [
  | inl degraded ↦ not_both row.assignment.state "degraded" degraded refl
  | inr other ↦ not_both row.assignment.state "draining" (ground arith) refl
]

abbrev renewed : String → ℕ → Row → Row
renewed state now row = record row {
  acks = [];
  assignment = record row.assignment {
    generation = row.assignment.generation + 1;
    state = state;
    revision = row.assignment.revision + 1;
    updated_at = now;
  };
}

renewed-Kept :
    (state : String) (now : ℕ) (row : Row)
    → (state == "applied") ≡ false
    → (is_inactive (renewed state now row).assignment ≡ true → row.assignment.bindings ≡ [])
    → Kept row (renewed state now row)
renewed-Kept state now row other inactive = (
  record { applied = λ e. absurd (ground arith); inactive = inactive },
  record { services = refl; gateway = refl; bindings = inl refl },
)

raised-Kept : (now : ℕ) (row : Row) → Lawful row → Kept row (raised now row)
unfolding raised is_inactive
raised-Kept now row lawful = elim (Bool-cases (is_inactive row.assignment)) [
  | inl inactive ↦ subst (Kept row) (ground (arith, inactive)) (
      renewed-Kept row.assignment.state now row (inactive-unapplied row inactive)
        (λ e. lawful.inactive inactive))
  | inr active ↦
      subst (Kept row) (ground (arith, active))
        (renewed-Kept "pending" now row refl (λ e. absurd (ground arith)))
]

pub bump_row-Kept :
    (service_id : String) (now : ℕ) (row row' : Row)
    → Lawful row
    → bump_row service_id now row ≡ ok row'
    → Kept row row'
unfolding bump_row
bump_row-Kept service_id now row row' lawful h =
    elim (Bool-cases (member service_id row.assignment.service_ids)) [
      | inr without ↦ subst (Kept row) (ground (arith, without)) (unchanged-Kept row lawful)
      | inl with_it ↦ subst (Kept row) (ground (arith, with_it)) (raised-Kept now row lawful)
    ]

quarantined-Kept :
    (row : Row)
    → (row.assignment.state == "applied") ≡ false
    → Kept row (unacked (without_bindings row))
unfolding without_bindings
quarantined-Kept row other = (
  record { applied = λ e. absurd (ground arith); inactive = λ e. refl },
  record { services = refl; gateway = refl; bindings = inr refl },
)

with_gateway-Lawful :
    (endpoint : String) (o : ObfuscationPolicy) (row : Row)
    → Lawful row
    → Lawful (with_gateway endpoint o row)
unfolding with_gateway is_inactive participants_applied
with_gateway-Lawful endpoint o row lawful = record {
  applied = lawful.applied;
  inactive = lawful.inactive;
}

with_gateway-raised :
    (endpoint : String) (o : ObfuscationPolicy) (now : ℕ) (row : Row)
    → Lawful row
    → Kept row (raised now (with_gateway endpoint o row))
unfolding with_gateway
with_gateway-raised endpoint o now row lawful =
    let kept =
      raised-Kept now (with_gateway endpoint o row) (with_gateway-Lawful endpoint o row lawful) in
    (
      kept.0,
      record { services = kept.1.services; gateway = kept.1.gateway; bindings = kept.1.bindings },
    )

pub endpoint_row-Kept :
    (spec : GatewaySpec) (now : ℕ) (row row' : Row)
    → Lawful row
    → endpoint_row spec now row ≡ ok row'
    → Kept row row'
unfolding endpoint_row
endpoint_row-Kept spec now row row' lawful h =
    let endpoint = endpoint_of spec.public_endpoints row.assignment.public_endpoint in
    let passed =
      not (row.assignment.gateway_id == spec.node_id)
      || (endpoint == row.assignment.public_endpoint
          && same_obfuscation_policy row.assignment.obfuscation spec.obfuscation) in
    elim (Bool-cases passed) [
      | inl same ↦ subst (Kept row) (ground (arith, same)) (unchanged-Kept row lawful)
      | inr changed ↦
          subst (Kept row) (ground (arith, changed))
            (with_gateway-raised endpoint spec.obfuscation now row lawful)
    ]

with_state-quarantined :
    (now : ℕ) (row row' : Row)
    → (with_state "degraded" now (without_bindings row) >>= λ changed. ok (unacked changed))
      ≡ ok row'
    → Kept row row'
unfolding with_state without_bindings
with_state-quarantined now row row' h =
    let degraded = written "degraded" now row in
    let kept = quarantined-Kept degraded refl in
    elim (Bool-cases (row.assignment.revision == max_int64)) [
      | inl exhausted ↦ absurd (ground (arith, exhausted))
      | inr left ↦ subst (Kept row) (ground (arith, left)) (
        kept.0,
        record { services = kept.1.services; gateway = kept.1.gateway; bindings = inr refl },
      )
    ]

pub quarantine_row-Kept :
    (node_id : String) (now : ℕ) (row row' : Row)
    → Lawful row
    → quarantine_row node_id now row ≡ ok row'
    → Kept row row'
unfolding quarantine_row
quarantine_row-Kept node_id now row row' lawful h =
    let passed =
      not (row.assignment.gateway_id == node_id) && not (row.assignment.agent_id == node_id) in
    elim (Bool-cases passed) [
      | inl other ↦ subst (Kept row) (ground (arith, other)) (unchanged-Kept row lawful)
      | inr own ↦ elim (Bool-cases (row.assignment.state == "degraded")) [
        | inl degraded ↦
            subst (Kept row) (ground (arith, own, degraded))
              (quarantined-Kept row (not_both row.assignment.state "degraded" degraded refl))
        | inr active ↦ with_state-quarantined now row row' (ground (arith, own, active))
      ]
    ]

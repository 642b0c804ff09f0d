-- ===== src/Afdp/Control/Admission.antt =====
-- Who is admitted by internal/afdp/protocol_control.go: the handshake and each open.
use asterferry.Base.{
  not, ◌&&◌, ◌||◌, if◌then◌else◌, ◌==◌, leb, inl, inr, ◌↔◌, Bool-cases, subst, sym, true, false,
  ◌≡◌, refl, none, [], ◌∷◌, List, String, arith, length, string_keyed, nat_keyed, ◌≤◌, ◌⊎◌,
}
use asterferry.Base.Sets.{member, NoRepeat, has_repeat, has_repeat-NoRepeat}
use Prim.Native.String.{len}
use asterferry.Text.{any_rune}
use asterferry.Domain.Id.Alphabet.{IsId}
use asterferry.Afdp.Control.Parts.{
  Unblocked, is_blocked-Unblocked, IsTarget, is_target-IsTarget, is_wire_id-IsId,
}
use asterferry.Afdp.Control.{
  AssignmentView, SessionHello, OpenMetadata, authorize_session, authorize_open, validate_session,
  encode_open_validation, check_capabilities, is_wire_id,
}

capabilities-has_repeat :
    (seen xs : List String) → check_capabilities seen xs ≡ none → has_repeat seen xs ≡ false
unfolding check_capabilities has_repeat
capabilities-has_repeat seen [] h = refl
capabilities-has_repeat seen (x ∷ xs) h = ground (arith, capabilities-has_repeat (x ∷ seen) xs)

-- What a hello states once it is admitted to an assignment.
pub record Admitted (hello : SessionHello) (assignment : AssignmentView) : Type 0 where
  pub same_assignment : hello.assignment_id ≡ assignment.id
  pub same_agent : hello.agent_id ≡ assignment.agent_id
  pub same_generation : hello.generation ≡ assignment.generation
  pub positive : 1 ≤ hello.generation
  pub open_state : Unblocked assignment.state
  pub bounded : length hello.capabilities ≤ 64
  pub no_repeat : NoRepeat hello.capabilities

-- A hello that AuthorizeSession admits names the assignment, the agent and the generation of the view
-- it is checked against; the generation is positive, the placement is not pending, draining or
-- degraded, and at most 64 capabilities are offered, none twice.
pub authorize_session-Admitted :
    (hello : SessionHello) (assignment : AssignmentView)
    → authorize_session hello assignment ≡ none
    → Admitted hello assignment
unfolding authorize_session validate_session
authorize_session-Admitted hello assignment h = record {
  same_assignment = ground (arith, string_keyed.same_iff hello.assignment_id assignment.id);
  same_agent = ground (arith, string_keyed.same_iff hello.agent_id assignment.agent_id);
  same_generation = ground arith;
  positive = ground arith;
  open_state = (is_blocked-Unblocked assignment.state).0 (ground arith);
  bounded = ground arith;
  no_repeat =
      has_repeat-NoRepeat [] hello.capabilities
        (capabilities-has_repeat [] hello.capabilities (ground arith));
}

-- What an open asks for to be admitted.
pub record OpenAdmitted (value : OpenMetadata) (assignment : AssignmentView) : Type 0 where
  pub open_state : Unblocked assignment.state
  pub service :
      ((value.egress ≡ true) × (value.service_id ≡ ""))
      ⊎ ((value.egress ≡ false)
          × IsId value.service_id
          × (member value.service_id assignment.service_ids ≡ true))
  pub flow :
      ((value.protocol ≡ "tcp") × (value.flow_id ≡ 0))
      ⊎ ((value.protocol ≡ "udp") × (1 ≤ value.flow_id))
  pub written : 1 ≤ len value.target
  pub short : len value.target ≤ 2048
  pub unbroken : any_rune (λ r. r == 0 || r == 13 || r == 10) value.target ≡ false
  pub target : IsTarget value.target

-- AuthorizeOpen admits exactly the opens for a placement that is not pending, draining or degraded,
-- which are egress opens without a service id or name by a valid id a service of the assignment; of
-- which a TCP open carries no flow id and a UDP open carries one, and there is no other protocol;
-- and whose target has 1 to 2048 bytes, no NUL, CR or LF, and is a host without blanks around it and
-- a port from 1 to 65535 without blanks.
pub authorize_open-OpenAdmitted :
    (value : OpenMetadata) (assignment : AssignmentView)
    → (authorize_open value assignment ≡ none) ↔ OpenAdmitted value assignment
unfolding authorize_open encode_open_validation
authorize_open-OpenAdmitted value assignment = (forth, back)
  where
    tcp : ((value.protocol == "tcp") ≡ true) ↔ (value.protocol ≡ "tcp")
    tcp = string_keyed.same_iff value.protocol "tcp"

    udp : ((value.protocol == "udp") ≡ true) ↔ (value.protocol ≡ "udp")
    udp = string_keyed.same_iff value.protocol "udp"

    unnamed : ((value.service_id == "") ≡ true) ↔ (value.service_id ≡ "")
    unnamed = string_keyed.same_iff value.service_id ""

    forth : authorize_open value assignment ≡ none → OpenAdmitted value assignment
    forth h = record {
      open_state = (is_blocked-Unblocked assignment.state).0 (ground arith);
      service = elim (Bool-cases value.egress) [
        | inl egress ↦ inl (egress, ground (arith, egress, unnamed))
        | inr own ↦
            inr
              (own, (is_wire_id-IsId value.service_id).0 (ground (arith, own)), ground (arith, own))
      ];
      flow = elim (Bool-cases (value.protocol == "tcp")) [
        | inl stream ↦ inl (ground (arith, stream, tcp), ground (arith, stream))
        | inr other ↦ inr (ground (arith, other, udp), ground (arith, other, udp))
      ];
      written = ground arith;
      short = ground arith;
      unbroken = ground arith;
      target = (is_target-IsTarget value.target).0 (ground arith);
    }

    fits :
        OpenAdmitted value assignment
        → (if value.egress
            then not (value.service_id == "")
            else not (is_wire_id value.service_id 128))
          ≡ false
    fits o = elim o.service [
      | inl (egress, none_named) ↦ ground (arith, egress, none_named, unnamed)
      | inr (own, id, held) ↦ ground (arith, own, (is_wire_id-IsId value.service_id).1 id)
    ]

    has_service :
        OpenAdmitted value assignment
        → (value.egress || member value.service_id assignment.service_ids) ≡ true
    has_service o = elim o.service [
      | inl (egress, none_named) ↦ ground (arith, egress)
      | inr (own, id, held) ↦ ground (arith, own, held)
    ]

    flows :
        OpenAdmitted value assignment
        → (((value.protocol == "tcp") && not (value.protocol == "udp") && value.flow_id == 0)
            || (value.protocol == "udp" && not (value.protocol == "tcp") && leb 1 value.flow_id))
          ≡ true
    flows o = elim o.flow [
      | inl (stream, unmarked) ↦
          subst
            (λ p.
              (((p == "tcp") && not (p == "udp") && value.flow_id == 0)
                || (p == "udp" && not (p == "tcp") && leb 1 value.flow_id))
              ≡ true)
            (sym stream) (ground (arith, unmarked))
      | inr (packets, marked) ↦
          subst
            (λ p.
              (((p == "tcp") && not (p == "udp") && value.flow_id == 0)
                || (p == "udp" && not (p == "tcp") && leb 1 value.flow_id))
              ≡ true)
            (sym packets) (ground (arith, marked))
    ]

    back : OpenAdmitted value assignment → authorize_open value assignment ≡ none
    back o = ground (
      arith,
      fits o,
      has_service o,
      flows o,
      (is_blocked-Unblocked assignment.state).1 o.open_state,
      o.written,
      o.short,
      o.unbroken,
      (is_target-IsTarget value.target).1 o.target,
    )

-- ===== src/Controller/Scheduler/Scheduled.antt =====
-- What an assignment made by internal/controller/scheduler_placement.go is, and when none is made.
use asterferry.Base.{
  ℕ, true, false, ◌&&◌, ◌≡◌, ◌≢◌, ◌⊎◌, refl, sym, Option, none, some, List, [], ◌∷◌, String, ok,
  err, Option-cases, Bool-cases, inl, inr, nat_keyed, string_keyed, arith, All, ap, subst, ◌∙◌,
}
use asterferry.Base.Sets.{member}
use asterferry.Domain.Types.{Assignment, Binding}
use asterferry.Controller.Ports.{binding_keyed}
use asterferry.Controller.Scheduler.{
  Checks, GatewayCandidate, ScheduleRequest, PortConflict, invalid, no_healthy_gateway, Placement,
  placed, conflicting, refused, rejected, Verdict, chosen, passed_over, has_conflict, has_refusal,
  aborted, key_of, place, consider, try_candidates, sort_candidates, is_eligible, has_capacity,
  occupied, bindings_by_service, bindings_of, own, assignment_of, prepared_request, schedule,
  sticky, verdict_of, discard_all, check_request, first_of,
}
use asterferry.Controller.Scheduler.Place.{Placed, place-Placed}
use asterferry.Controller.Scheduler.Choice.{Among, sort-Among, sort-All, ApartFrom, apart}

verdict-chosen :
    (make : List Binding → Assignment) (p : Placement) (a : Assignment)
    → verdict_of make p ≡ chosen a
    → (bindings : List Binding) × (p ≡ placed bindings) × (a ≡ make bindings)
verdict-chosen make (placed bindings) a h = (bindings, refl, ground arith)
verdict-chosen make (conflicting x) a h = absurd (cc)
verdict-chosen make (refused x) a h = absurd (cc)
verdict-chosen make (rejected x) a h = absurd (cc)

-- How a candidate turned out, with the equation.
abbrev Ended : Verdict → Type 0
Ended v =
    ((a : Assignment) × (v ≡ chosen a))
    ⊎ ((v ≡ passed_over)
        ⊎ (((x : PortConflict) × (v ≡ has_conflict x))
            ⊎ (((m : String) × (v ≡ has_refusal m)) ⊎ ((m : String) × (v ≡ aborted m)))))

ended : (v : Verdict) → Ended v
ended (chosen a) = inl (a, refl)
ended passed_over = inr (inl refl)
ended (has_conflict x) = inr (inr (inl (x, refl)))
ended (has_refusal m) = inr (inr (inr (inl (m, refl))))
ended (aborted m) = inr (inr (inr (inr (m, refl))))

module _ (checks : Checks) (request : ScheduleRequest) (now : ℕ) where
  -- Where an assignment was placed.
  pub record PlacedOn (c : GatewayCandidate) (a : Assignment) : Type 0 where
    pub eligible : is_eligible request c ≡ true
    pub capacity : has_capacity request c ≡ true
    pub built : a ≡ assignment_of request c now a.bindings
    pub ports :
        Placed checks c
          (bindings_by_service (bindings_of (own request c)) [])
          (occupied checks request c)
          request.services
          a.bindings
    pub apart_from_others : All (ApartFrom checks request.existing a.bindings) c.assignments

  others-apart :
      (c : GatewayCandidate) (bindings : List Binding)
      → All (λ (b : Binding). member (key_of checks b) (occupied checks request c) ≡ false) bindings
      → All (ApartFrom checks request.existing bindings) c.assignments
  unfolding occupied
  others-apart c bindings unused =
      apart checks request.existing c.assignments
        (discard_all checks (bindings_of (own request c)) c.used_bindings)
        (occupied checks request c) bindings (λ key h. h) unused

  consider-PlacedOn :
      (c : GatewayCandidate) (a : Assignment)
      → consider checks request now c ≡ chosen a
      → PlacedOn c a
  unfolding consider
  consider-PlacedOn c a h = elim (Bool-cases (is_eligible request c && has_capacity request c)) [
    | inr unfit ↦ absurd (ground arith)
    | inl fit ↦
        let kept = bindings_by_service (bindings_of (own request c)) [] in
        let (bindings, q, same) =
          verdict-chosen (assignment_of request c now)
            (place checks c kept request.services (occupied checks request c)) a (ground arith) in
        let ports =
          place-Placed checks c kept request.services (occupied checks request c) bindings q in
        subst (PlacedOn c) (sym same) (record {
          eligible = ground arith;
          capacity = ground arith;
          built = refl;
          ports = ports;
          apart_from_others = others-apart c bindings ports.unused;
        })
  ]

  further :
      (c : GatewayCandidate) (cs : List GatewayCandidate) (a : Assignment)
      → (d : GatewayCandidate) × Among d cs × PlacedOn d a
      → (d : GatewayCandidate) × Among d (c ∷ cs) × PlacedOn d a
  further c cs a (d, among, p) = (d, inr among, p)

  try_candidates-PlacedOn :
      (cs : List GatewayCandidate) (clash : Option PortConflict) (refusal : Option String)
      (a : Assignment)
      → try_candidates checks request now cs clash refusal ≡ ok a
      → (c : GatewayCandidate) × Among c cs × PlacedOn c a
  unfolding try_candidates
  try_candidates-PlacedOn [] (some clash) refusal a h = absurd (cc)
  try_candidates-PlacedOn [] none (some message) a h = absurd (cc)
  try_candidates-PlacedOn [] none none a h = absurd (cc)
  try_candidates-PlacedOn (c ∷ cs) clash refusal a h =
      elim (ended (consider checks request now c)) [
        | inl (b, q) ↦
            let same : b ≡ a = ground arith in
            (c, inl refl, consider-PlacedOn c a (q ∙ ap chosen same))
        | inr (inl q) ↦ further c cs a (try_candidates-PlacedOn cs clash refusal a (ground arith))
        | inr (inr (inl (x, q))) ↦
            further c cs a (try_candidates-PlacedOn cs (some x) refusal a (ground arith))
        | inr (inr (inr (inl (m, q)))) ↦
            further c cs a (try_candidates-PlacedOn cs clash (first_of refusal m) a (ground arith))
        | inr (inr (inr (inr (m, q)))) ↦ absurd (ground arith)
      ]

  -- A candidate that is passed over cannot take the agent.
  abbrev pub Unfit : GatewayCandidate → Type 0
  Unfit c = (is_eligible request c && has_capacity request c) ≡ false

  passed-Unfit : (c : GatewayCandidate) → consider checks request now c ≡ passed_over → Unfit c
  unfolding consider
  passed-Unfit c h = elim (Bool-cases (is_eligible request c && has_capacity request c)) [
    | inr unfit ↦ unfit
    | inl fit ↦ absurd (ground arith)
  ]

  no_conflict :
      (cs : List GatewayCandidate) (clash : PortConflict) (refusal : Option String)
      → try_candidates checks request now cs (some clash) refusal ≢ err no_healthy_gateway
  unfolding try_candidates
  no_conflict [] clash refusal h = cc
  no_conflict (c ∷ cs) clash refusal h = elim (ended (consider checks request now c)) [
    | inl (b, q) ↦ absurd (ground arith)
    | inr (inl q) ↦ no_conflict cs clash refusal (ground arith)
    | inr (inr (inl (x, q))) ↦ no_conflict cs x refusal (ground arith)
    | inr (inr (inr (inl (m, q)))) ↦ no_conflict cs clash (first_of refusal m) (ground arith)
    | inr (inr (inr (inr (m, q)))) ↦ absurd (ground arith)
  ]

  no_refusal :
      (cs : List GatewayCandidate) (message : String)
      → try_candidates checks request now cs none (some message) ≢ err no_healthy_gateway
  unfolding try_candidates
  no_refusal [] message h = cc
  no_refusal (c ∷ cs) message h = elim (ended (consider checks request now c)) [
    | inl (b, q) ↦ absurd (ground arith)
    | inr (inl q) ↦ no_refusal cs message (ground arith)
    | inr (inr (inl (x, q))) ↦ no_conflict cs x (some message) (ground arith)
    | inr (inr (inr (inl (m, q)))) ↦ no_refusal cs message (ground arith)
    | inr (inr (inr (inr (m, q)))) ↦ absurd (ground arith)
  ]

  pub try_candidates-Unfit :
      (cs : List GatewayCandidate)
      → try_candidates checks request now cs none none ≡ err no_healthy_gateway
      → All Unfit cs
  unfolding try_candidates
  try_candidates-Unfit [] h = tt
  try_candidates-Unfit (c ∷ cs) h = elim (ended (consider checks request now c)) [
    | inl (b, q) ↦ absurd (ground arith)
    | inr (inl q) ↦ (passed-Unfit c q, try_candidates-Unfit cs (ground arith))
    | inr (inr (inl (x, q))) ↦ absurd (no_conflict cs x none (ground arith))
    | inr (inr (inr (inl (m, q)))) ↦ absurd (no_refusal cs m (ground arith))
    | inr (inr (inr (inr (m, q)))) ↦ absurd (ground arith)
  ]

schedule-parts :
    (checks : Checks) (request : ScheduleRequest) (candidates : List GatewayCandidate) (now : ℕ)
    → ((message : String) × (schedule checks request candidates now ≡ err (invalid message)))
      ⊎ (schedule checks request candidates now
          ≡ try_candidates checks
              (prepared_request request)
              now
              (sort_candidates (sticky request.existing) candidates)
              none
              none)
unfolding schedule
schedule-parts checks request candidates now = elim (Option-cases (check_request checks request)) [
  | inl q ↦ inr (ground arith)
  | inr (message, q) ↦ inl (message, ground arith)
]

-- An assignment that Schedule returns is on one of the candidates: a gateway that is enabled, healthy
-- and not revoked, expired or decommissioned, that the agent is bound to or selects, and that has
-- capacity left. It is pending, of the requested generation, and names the requested services in
-- order; each has one binding, whose port is not occupied on the gateway; no two of its bindings
-- coincide, and none coincides with one of another assignment that is in place there.
pub schedule-PlacedOn :
    (checks : Checks) (request : ScheduleRequest) (candidates : List GatewayCandidate) (now : ℕ)
    (a : Assignment)
    → schedule checks request candidates now ≡ ok a
    → (c : GatewayCandidate) × Among c candidates
      × PlacedOn checks (prepared_request request) now c a
schedule-PlacedOn checks request candidates now a h =
    elim (schedule-parts checks request candidates now) [
      | inl (message, q) ↦ absurd (ground arith)
      | inr q ↦
          let (c, among, p) =
            try_candidates-PlacedOn checks (prepared_request request) now
              (sort_candidates (sticky request.existing) candidates) none none a (sym q ∙ h) in
          (c, sort-Among (sticky request.existing) c candidates among, p)
    ]

-- Schedule reports that no healthy gateway fits only if no candidate is both eligible for the agent
-- and has capacity for the services.
pub schedule-Unfit :
    (checks : Checks) (request : ScheduleRequest) (candidates : List GatewayCandidate) (now : ℕ)
    → schedule checks request candidates now ≡ err no_healthy_gateway
    → All (Unfit checks (prepared_request request) now) candidates
schedule-Unfit checks request candidates now h =
    elim (schedule-parts checks request candidates now) [
      | inl (message, q) ↦ absurd (ground arith)
      | inr q ↦
          sort-All (sticky request.existing) (Unfit checks (prepared_request request) now)
            candidates
            (try_candidates-Unfit checks (prepared_request request) now
              (sort_candidates (sticky request.existing) candidates) (sym q ∙ h))
    ]

-- ===== src/Dataplane/Engine/Validated.antt =====
-- internal/dataplane/engine_snapshot.go with the validation of internal/domain: the engine as the
-- program composes it. `report` makes an engine's error of an error of Validate.
use asterferry.Base.{
  ◌≡◌, ◌≢◌, inl, inr, Option, none, some, String, Result, ok, true, false, ==→eq, orelse-none, ◌==◌,
  string_keyed, arith, Option-cases, Result-cases,
}
use asterferry.Domain.Types.{DesiredSnapshot}
use asterferry.Domain.Validation.{Issue, Platform}
use asterferry.Domain.Validation.Resources.{validate_service}
use asterferry.Domain.Validation.Snapshot.{validate_snapshot, check_structure, check_checksum}
use asterferry.Domain.Validation.Accepted.{Consistent, validate_snapshot-Consistent}
use asterferry.Afdp.Errors.{Error}
use asterferry.Dataplane.Engine.{Engine}
use asterferry.Dataplane.Engine.Snapshot.{Validation, apply_snapshot, prepare, check_snapshot}
use asterferry.Dataplane.Engine.Install.{Installed, apply_snapshot-Installed}

abbrev reported : (Issue → Error) → Option Issue → Option Error
reported report none = none
reported report (some issue) = some (report issue)

module _ (platform : Platform) (checksum : DesiredSnapshot → Result String String)
    (report : Issue → Error) where
  unfoldable pub domain_checks : Validation
  domain_checks = record {
    snapshot_error = λ snapshot. reported report (validate_snapshot platform checksum snapshot);
    service_error = λ service. reported report (validate_service platform service);
  }

  -- What stands behind an engine's installed snapshot.
  pub record Vouched (e e' : Engine) (snapshot : DesiredSnapshot)
      (previous : Option DesiredSnapshot) : Type 0 where
    pub consistent : Consistent platform snapshot
    pub signed : snapshot.checksum ≢ ""
    pub intact :
        (computed : String) × (checksum snapshot ≡ ok computed)
        × (platform.equal_fold computed snapshot.checksum ≡ true)
    pub own : snapshot.node_id ≡ e.node_id
    pub installed : Installed e e' snapshot previous

  accepted-checked :
      (cancelled : Option Error) (e : Engine) (snapshot : DesiredSnapshot)
      (previous : Option DesiredSnapshot)
      → (apply_snapshot domain_checks cancelled e snapshot previous).1 ≡ none
      → check_snapshot domain_checks cancelled e snapshot previous ≡ none
  unfolding apply_snapshot prepare
  accepted-checked cancelled e snapshot previous h =
      elim (Option-cases (check_snapshot domain_checks cancelled e snapshot previous)) [
        | inl passed ↦ passed
        | inr (error, refused) ↦ absurd (ground (arith, refused))
      ]

  checked-valid :
      (cancelled : Option Error) (e : Engine) (snapshot : DesiredSnapshot)
      (previous : Option DesiredSnapshot)
      → check_snapshot domain_checks cancelled e snapshot previous ≡ none
      → (validate_snapshot platform checksum snapshot ≡ none)
        × ((snapshot.checksum == "") ≡ false)
        × ((snapshot.node_id == e.node_id) ≡ true)
  unfolding check_snapshot domain_checks
  checked-valid (some error) e snapshot previous h = absurd (cc)
  checked-valid none e snapshot previous h =
      elim (Option-cases (validate_snapshot platform checksum snapshot)) [
        | inl passed ↦ (passed, ground (arith, passed), ground (arith, passed))
        | inr (issue, refused) ↦ absurd (ground (arith, refused))
      ]

  valid-intact :
      (snapshot : DesiredSnapshot)
      → validate_snapshot platform checksum snapshot ≡ none
      → (snapshot.checksum == "") ≡ false
      → (computed : String) × (checksum snapshot ≡ ok computed)
        × (platform.equal_fold computed snapshot.checksum ≡ true)
  unfolding validate_snapshot check_checksum
  valid-intact snapshot valid signed =
      let tested =
        (orelse-none (check_structure platform snapshot) (check_checksum platform checksum snapshot)
          valid).1 in
      elim (Result-cases (checksum snapshot)) [
        | inl (computed, done) ↦ (computed, done, ground (arith, done, tested))
        | inr (error, failed) ↦ absurd (ground (arith, failed, tested))
      ]

  -- A snapshot that ApplySnapshot accepts, with the program's own Validate, is consistent as
  -- DesiredSnapshot.Validate demands, carries a checksum that is that of its content up to case, names
  -- the engine's node, and is installed.
  pub apply_snapshot-Vouched :
      (cancelled : Option Error) (e : Engine) (snapshot : DesiredSnapshot)
      (previous : Option DesiredSnapshot)
      → (apply_snapshot domain_checks cancelled e snapshot previous).1 ≡ none
      → Vouched e (apply_snapshot domain_checks cancelled e snapshot previous).0 snapshot previous
  apply_snapshot-Vouched cancelled e snapshot previous h =
      let checked =
        checked-valid cancelled e snapshot previous
          (accepted-checked cancelled e snapshot previous h) in
      record {
        consistent = validate_snapshot-Consistent platform checksum snapshot checked.0;
        signed = λ empty.
            absurd (ground (arith, checked.1, string_keyed.same_iff snapshot.checksum "", empty));
        intact = valid-intact snapshot checked.0 checked.1;
        own = ==→eq snapshot.node_id e.node_id checked.2;
        installed = apply_snapshot-Installed domain_checks cancelled e snapshot previous h;
      }

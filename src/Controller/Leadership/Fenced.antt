-- ===== src/Controller/Leadership/Fenced.antt =====
-- The fence on writes of internal/controller/leadership.go, over any number of controllers.
use asterferry.Base.{
  ℕ, ◌<◌, Bool, true, false, ◌&&◌, ◌≡◌, ◌≢◌, ◌⊎◌, inl, inr, refl, Option, none, some, List, [], ◌∷◌,
  String, ok, err, All, All-map, ltb, ◌==◌, nat_keyed, string_keyed, ==→eq, arith, Option-cases,
  Bool-cases, subst, ◌∙◌, sym, Result,
}
use asterferry.Base.Maps.{lookup, insert}
use asterferry.Base.Maps.Count.{All-insert, All-lookup}
use asterferry.Controller.Leadership.{
  Lease, Leadership, LeadershipEvent, LeadershipError, Reply, works, fails, answer_lost, World,
  Step, start, turn, write, stop, is_free, acquired, acquire, is_own, renewed, renew, set_leader,
  set_standby, freed, release, after_renew, after_acquire, round, check_row, assert_write,
  commit_write, moved, committed, begin, step, run, new_leadership,
}

-- A commit came before another: in an earlier epoch, or in the same and by the same controller.
abbrev pub Before : String × ℕ → String × ℕ → Type 0
Before earlier later = (earlier.1 < later.1) ⊎ ((earlier.1 ≡ later.1) × (earlier.0 ≡ later.0))

-- The commits, the last first, came in order.
abbrev pub InOrder : List (String × ℕ) → Type 0
InOrder [] = Unit
InOrder (later ∷ commits) = All (λ earlier. Before earlier later) commits × InOrder commits

-- What a row says of a commit: it was made in an earlier epoch, or by the owner of the row, if it has one.
abbrev Known : Lease → String × ℕ → Type 0
Known row commit =
    (commit.1 < row.epoch) ⊎ ((commit.1 ≡ row.epoch) × ((row.owner ≡ "") ⊎ (row.owner ≡ commit.0)))

taken-Known :
    (row row' : Lease) (commit : String × ℕ)
    → row.epoch < row'.epoch
    → Known row commit
    → Known row' commit
taken-Known row row' commit h (inl older) = inl (omega arith)
taken-Known row row' commit h (inr same) = inl (omega arith)

kept-Known :
    (row row' : Lease) (commit : String × ℕ)
    → row'.epoch ≡ row.epoch
    → row'.owner ≡ row.owner
    → Known row commit
    → Known row' commit
kept-Known row row' commit h o (inl older) = inl (omega arith)
kept-Known row row' commit h o (inr (same, inl nobody)) = inr (omega arith, inl (o ∙ nobody))
kept-Known row row' commit h o (inr (same, inr owner)) = inr (omega arith, inr (o ∙ owner))

given_up-Known :
    (row row' : Lease) (commit : String × ℕ)
    → row'.epoch ≡ row.epoch
    → row'.owner ≡ ""
    → Known row commit
    → Known row' commit
given_up-Known row row' commit h o (inl older) = inl (omega arith)
given_up-Known row row' commit h o (inr same) = inr (omega arith, inl o)

-- What a round or a release leaves of the row: the row itself, or one of three updates.
abbrev Left : ℕ → String → Lease → Lease → Type 0
Left now id row row' =
    (row' ≡ row)
    ⊎ ((row' ≡ acquired now id row) ⊎ ((row' ≡ renewed now row) ⊎ (row' ≡ freed now row)))

Left-Known :
    (now : ℕ) (id : String) (row row' : Lease) (commit : String × ℕ)
    → Left now id row row'
    → Known row commit
    → Known row' commit
unfolding acquired renewed freed
Left-Known now id row row' commit (inl e) = kept-Known row row' commit (ground arith) (ground arith)
Left-Known now id row row' commit (inr (inl e)) = taken-Known row row' commit (ground arith)
Left-Known now id row row' commit (inr (inr (inl e))) =
    kept-Known row row' commit (ground arith) (ground arith)
Left-Known now id row row' commit (inr (inr (inr e))) =
    given_up-Known row row' commit (ground arith) (ground arith)

acquire-row :
    (reply : Reply) (now : ℕ) (l : Leadership) (row : Lease)
    → ((acquire reply now l row).0 ≡ row)
      ⊎ ((acquire reply now l row).0 ≡ acquired now l.owner_id row)
unfolding acquire
acquire-row fails now l row = inl refl
acquire-row works now l row = elim (Bool-cases (is_free now row)) [
  | inl free ↦ inr (ground arith)
  | inr held ↦ inl (ground arith)
]
acquire-row answer_lost now l row = elim (Bool-cases (is_free now row)) [
  | inl free ↦ inr (ground arith)
  | inr held ↦ inl (ground arith)
]

renew-row :
    (reply : Reply) (now : ℕ) (l : Leadership) (row : Lease)
    → ((renew reply now l row).0 ≡ row) ⊎ ((renew reply now l row).0 ≡ renewed now row)
unfolding renew
renew-row fails now l row = inl (ground arith)
renew-row works now l row = elim (Bool-cases (l.active && (is_own l row && ltb now row.until))) [
  | inl own ↦ inr (ground arith)
  | inr other ↦ inl (ground arith)
]
renew-row answer_lost now l row =
    elim (Bool-cases (l.active && (is_own l row && ltb now row.until))) [
      | inl own ↦ inr (ground arith)
      | inr other ↦ inl (ground arith)
    ]

release-row :
    (reply : Reply) (now : ℕ) (l : Leadership) (row : Lease)
    → ((release reply now l row).0 ≡ row) ⊎ ((release reply now l row).0 ≡ freed now row)
unfolding release
release-row fails now l row = inl (ground arith)
release-row works now l row = elim (Bool-cases ((l.enabled && l.active) && is_own l row)) [
  | inl own ↦ inr (ground arith)
  | inr other ↦ inl (ground arith)
]
release-row answer_lost now l row = elim (Bool-cases ((l.enabled && l.active) && is_own l row)) [
  | inl own ↦ inr (ground arith)
  | inr other ↦ inl (ground arith)
]

after_acquire-row :
    (r : Lease × Result LeadershipError ℕ) (l : Leadership) → (after_acquire r l).0 ≡ r.0
unfolding after_acquire
after_acquire-row (row, ok epoch) l = refl
after_acquire-row (row, err error) l = refl

after_renew-row : (r : Lease × Option LeadershipError) (l : Leadership) → (after_renew r l).0 ≡ r.0
unfolding after_renew
after_renew-row (row, none) l = refl
after_renew-row (row, some error) l = refl

round-Left :
    (reply : Reply) (now : ℕ) (l : Leadership) (row : Lease)
    → Left now l.owner_id row (round reply now l row).0
unfolding round
round-Left reply now l row = elim (Bool-cases l.enabled) [
  | inr off ↦ inl (ground arith)
  | inl on ↦ elim (Bool-cases l.active) [
    | inl leader ↦ elim (renew-row reply now l row) [
      | inl e ↦ inl (ground (arith, after_renew-row (renew reply now l row) l))
      | inr e ↦ inr (inr (inl (ground (arith, after_renew-row (renew reply now l row) l))))
    ]
    | inr standby ↦ elim (acquire-row reply now l row) [
      | inl e ↦ inl (ground (arith, after_acquire-row (acquire reply now l row) l))
      | inr e ↦ inr (inl (ground (arith, after_acquire-row (acquire reply now l row) l)))
    ]
  ]
]

release-Left :
    (reply : Reply) (now : ℕ) (l : Leadership) (row : Lease)
    → Left now l.owner_id row (release reply now l row).0
release-Left reply now l row = elim (release-row reply now l row) [
  | inl e ↦ inl e
  | inr e ↦ inr (inr (inr e))
]

-- A controller that takes part in the leases and has an owner id.
record Named (l : Leadership) : Type 0 where
  enabled : l.enabled ≡ true
  id : l.owner_id ≢ ""

record Sound (w : World) : Type 0 where
  in_order : InOrder w.commits
  known : All (Known w.row) w.commits
  named : All (λ (entry : String × Leadership). Named entry.1) w.controllers

-- Nothing changes the owner id of a controller.
abbrev Same : Leadership → Leadership → Type 0
Same l l' = (l'.enabled ≡ l.enabled) × (l'.owner_id ≡ l.owner_id)

Named-Same : (l l' : Leadership) → Same l l' → Named l → Named l'
Named-Same l l' same n = record {
  enabled = same.0 ∙ n.enabled;
  id = λ empty. n.id (sym same.1 ∙ empty);
}

set_leader-Same : (epoch : ℕ) (l : Leadership) → Same l (set_leader epoch l).0
unfolding set_leader
set_leader-Same epoch l = (ground arith, ground arith)

after_acquire-Same :
    (r : Lease × Result LeadershipError ℕ) (l : Leadership) → Same l (after_acquire r l).1.0
unfolding after_acquire
after_acquire-Same (row, ok epoch) l = set_leader-Same epoch l
after_acquire-Same (row, err error) l = (refl, refl)

after_renew-Same :
    (r : Lease × Option LeadershipError) (l : Leadership) → Same l (after_renew r l).1.0
unfolding after_renew set_standby
after_renew-Same (row, none) l = (refl, refl)
after_renew-Same (row, some error) l = (refl, refl)

round-Same :
    (reply : Reply) (now : ℕ) (l : Leadership) (row : Lease) → Same l (round reply now l row).1.0
unfolding round
round-Same reply now l row =
    let acquired_same = after_acquire-Same (acquire reply now l row) l in
    let renewed_same = after_renew-Same (renew reply now l row) l in
    (
      ground (arith, acquired_same.0, renewed_same.0),
      ground (arith, acquired_same.1, renewed_same.1),
    )

release-Same :
    (reply : Reply) (now : ℕ) (l : Leadership) (row : Lease) → Same l (release reply now l row).1.0
unfolding release set_standby
release-Same works now l row = (ground arith, ground arith)
release-Same fails now l row = (ground arith, ground arith)
release-Same answer_lost now l row = (ground arith, ground arith)

-- A write that was committed was fenced by the row.
commit_write-own :
    (read reply : Reply) (now : ℕ) (l : Leadership) (row : Lease)
    → Named l
    → (commit_write read reply now l row).0 ≡ true
    → (row.owner ≡ l.owner_id) × (row.epoch ≡ l.epoch)
unfolding commit_write assert_write check_row is_own
commit_write-own fails reply now l row n h = absurd (ground (arith, n.enabled))
commit_write-own answer_lost reply now l row n h = absurd (ground (arith, n.enabled))
commit_write-own works reply now l row n h =
    (ground (arith, n.enabled, ==→eq row.owner l.owner_id), ground (arith, n.enabled))

new-Before :
    (row : Lease) (l : Leadership) (commits : List (String × ℕ))
    → Named l
    → row.owner ≡ l.owner_id
    → row.epoch ≡ l.epoch
    → All (Known row) commits
    → All (λ earlier. Before earlier (l.owner_id, l.epoch)) commits
new-Before row l commits n owner epoch =
    All-map (Known row) (λ earlier. Before earlier (l.owner_id, l.epoch)) commits
      (λ commit known. before commit known)
  where
    before : (commit : String × ℕ) → Known row commit → Before commit (l.owner_id, l.epoch)
    before commit (inl older) = inl (omega arith)
    before commit (inr (same, inl nobody)) = absurd (n.id (sym owner ∙ nobody))
    before commit (inr (same, inr mine)) = inr (omega arith, sym mine ∙ owner)

committed-Sound :
    (w : World) (l : Leadership) (result : Bool × Option LeadershipError)
    → Named l
    → (result.0 ≡ true → (w.row.owner ≡ l.owner_id) × (w.row.epoch ≡ l.epoch))
    → Sound w
    → Sound (committed w l result)
unfolding committed
committed-Sound w l (false, error) n fenced s = s
committed-Sound w l (true, error) n fenced s =
    let own = fenced refl in
    record {
      in_order = (new-Before w.row l w.commits n own.0 own.1 s.known, s.in_order);
      known = (inr (sym own.1, inr own.0), s.known);
      named = s.named;
    }

moved-Sound :
    (w : World) (id : String) (now : ℕ) (l : Leadership)
    (after : Lease × (Leadership × Option LeadershipEvent))
    → Left now l.owner_id w.row after.0
    → Same l after.1.0
    → Named l
    → Sound w
    → Sound (moved w id after)
unfolding moved
moved-Sound w id now l after left same n s = record {
  in_order = s.in_order;
  known =
      All-map (Known w.row) (Known after.0) w.commits
        (λ commit known. Left-Known now l.owner_id w.row after.0 commit left known) s.known;
  named =
      All-insert (λ (entry : String × Leadership). Named entry.1) id after.1.0 w.controllers
        (Named-Same l after.1.0 same n) s.named;
}

started-Sound :
    (w : World) (id : String)
    → id ≢ ""
    → Sound w
    → Sound (record w { controllers = insert id (new_leadership true id) w.controllers })
unfolding new_leadership
started-Sound w id given s = record {
  in_order = s.in_order;
  known = s.known;
  named =
      All-insert (λ (entry : String × Leadership). Named entry.1) id (new_leadership true id)
        w.controllers (record { enabled = refl; id = given }) s.named;
}

given_id : (id : String) → (id == "") ≡ false → id ≢ ""
given_id id h empty = ground (arith, string_keyed.same_iff id "")

begin-Sound : (w : World) (id : String) → Sound w → Sound (begin w id)
unfolding begin
begin-Sound w id s = elim (Option-cases (lookup id w.controllers)) [
  | inr there ↦ let same : begin w id ≡ w = ground arith in subst Sound (sym same) s
  | inl absent ↦ elim (Bool-cases (id == "")) [
    | inl empty ↦ let same : begin w id ≡ w = ground arith in subst Sound (sym same) s
    | inr given ↦
        let made : begin w id
            ≡ record w { controllers = insert id (new_leadership true id) w.controllers } =
          ground arith in
        subst Sound (sym made) (started-Sound w id (given_id id given) s)
  ]
]

-- A step of a controller that is there.
module _ (w : World) (id : String) (s : Sound w) (l : Leadership)
    (found : lookup id w.controllers ≡ some l) where
  named : Named l
  named = All-lookup Named id l w.controllers s.named found

  turn-Sound : (now : ℕ) (reply : Reply) → Sound (moved w id (round reply now l w.row))
  turn-Sound now reply =
      moved-Sound w id now l (round reply now l w.row) (round-Left reply now l w.row)
        (round-Same reply now l w.row) named s

  stop-Sound : (now : ℕ) (reply : Reply) → Sound (moved w id (release reply now l w.row))
  stop-Sound now reply =
      moved-Sound w id now l (release reply now l w.row) (release-Left reply now l w.row)
        (release-Same reply now l w.row) named s

  write-Sound :
      (now : ℕ) (read reply : Reply) → Sound (committed w l (commit_write read reply now l w.row))
  write-Sound now read reply =
      committed-Sound w l (commit_write read reply now l w.row) named
        (commit_write-own read reply now l w.row named) s

step-Sound : (w : World) (move : Step) → Sound w → Sound (step w move)
unfolding step
step-Sound w (start id) s = begin-Sound w id s
step-Sound w (turn id now reply) s = elim (Option-cases (lookup id w.controllers)) [
  | inl absent ↦ rw (absent, step) s
  | inr (l, found) ↦ rw (found, step) (turn-Sound w id s l found now reply)
]
step-Sound w (write id now read reply) s = elim (Option-cases (lookup id w.controllers)) [
  | inl absent ↦ rw (absent, step) s
  | inr (l, found) ↦ rw (found, step) (write-Sound w id s l found now read reply)
]
step-Sound w (stop id now reply) s = elim (Option-cases (lookup id w.controllers)) [
  | inl absent ↦ rw (absent, step) s
  | inr (l, found) ↦ rw (found, step) (stop-Sound w id s l found now reply)
]

run-Sound : (w : World) (moves : List Step) → Sound w → Sound (run w moves)
unfolding run
run-Sound w [] s = s
run-Sound w (move ∷ moves) s = run-Sound (step w move) moves (step-Sound w move s)

-- From any lease row, with no controllers and no commits, whatever controllers of one database then
-- start, do and stop, and whatever the times and replies of their statements: of two writes that were
-- committed, the later one was committed in a later fencing epoch, or in the same epoch by the same
-- controller.
pub run-InOrder :
    (row : Lease) (moves : List Step)
    → InOrder (run (record { row = row; controllers = []; commits = [] }) moves).commits
run-InOrder row moves =
    (run-Sound (record { row = row; controllers = []; commits = [] }) moves
      (record { in_order = tt; known = tt; named = tt })).in_order

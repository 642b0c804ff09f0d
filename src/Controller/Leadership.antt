-- ===== src/Controller/Leadership.antt =====
-- internal/controller/leadership.go: the lease on the database by which one of several controllers is the
-- leader, and the fence on writes. The row of controller_leases is a record, and a statement on it is one
-- step. `now` is the CURRENT_TIMESTAMP of a statement, in seconds; of a transaction it is the time at
-- which the transaction began. `reply` says what became of the statement: it worked, it failed, or it
-- worked and its answer was lost. The fencing epoch is a number, since the database refuses to pass its
-- largest integer. What is logged and counted is left out; an event that `notify` sends is a result.
pub mod Fenced
mod Tests
use asterferry.Base.{
  ℕ, ◌+◌, Bool, true, false, not, ◌&&◌, ◌||◌, Option, none, some, List, [], ◌∷◌, String, Result, ok,
  err, ltb, leb, is_none, if◌then◌else◌, ◌==◌, nat_keyed, string_keyed,
}
use asterferry.Base.Maps.{Map, lookup, insert, erase}

pub data LeadershipError : Type 0 where
  not_leader lost database : LeadershipError

-- The row of controller_leases
pub record Lease : Type 0 where
  pub owner : String
  pub epoch : ℕ
  pub until : ℕ

pub record Leadership : Type 0 where
  pub enabled : Bool
  pub owner_id : String
  pub active : Bool
  pub epoch : ℕ

pub record LeadershipEvent : Type 0 where
  pub leader : Bool
  pub epoch : ℕ
  pub error : Option LeadershipError

pub data Reply : Type 0 where
  works fails answer_lost : Reply

abbrev pub lease_ttl : ℕ
lease_ttl = 15

unfoldable pub new_leadership : Bool → String → Leadership
new_leadership enabled owner_id = record {
  enabled = enabled;
  owner_id = owner_id;
  active = not enabled;
  epoch = 0;
}

unfoldable pub require_leader : Leadership → Option LeadershipError
require_leader l = if l.active then none else some not_leader

-- The row is free: nobody has it, or the lease has run out.
unfoldable pub is_free : ℕ → Lease → Bool
is_free now row = row.owner == "" || leb row.until now

-- The row after the UPDATE of acquire
unfoldable pub acquired : ℕ → String → Lease → Lease
acquired now owner_id row = record {
  owner = owner_id;
  epoch = row.epoch + 1;
  until = now + lease_ttl;
}

unfoldable pub acquire : Reply → ℕ → Leadership → Lease → Lease × Result LeadershipError ℕ
acquire fails now l row = (row, err database)
acquire works now l row =
    if is_free now row
    then (acquired now l.owner_id row, ok (row.epoch + 1))
    else (row, err not_leader)
acquire answer_lost now l row =
    (if is_free now row then acquired now l.owner_id row else row, err database)

-- The lease is this controller's, in the epoch that it knows of.
unfoldable pub is_own : Leadership → Lease → Bool
is_own l row = row.owner == l.owner_id && row.epoch == l.epoch

unfoldable pub renewed : ℕ → Lease → Lease
renewed now row = record row { until = now + lease_ttl }

unfoldable pub renew : Reply → ℕ → Leadership → Lease → Lease × Option LeadershipError
renew reply now l row =
    let own : Bool = is_own l row && ltb now row.until in
    if not l.active then (row, some not_leader) else (elim reply [
      | fails ↦ (row, some database)
      | answer_lost ↦ (if own then renewed now row else row, some database)
      | works ↦ if own then (renewed now row, none) else (row, some lost)
    ])

unfoldable pub set_leader : ℕ → Leadership → Leadership × Option LeadershipEvent
set_leader epoch l = if l.active && l.epoch == epoch then (l, none) else (
  record l { active = true; epoch = epoch },
  some (record { leader = true; epoch = epoch; error = none }),
)

unfoldable pub set_standby :
    Option LeadershipError → Leadership → Leadership × Option LeadershipEvent
set_standby error l = (
  record l { active = false; epoch = 0 },
  if l.active then some (record { leader = false; epoch = 0; error = error }) else none,
)

unfoldable pub freed : ℕ → Lease → Lease
freed now row = record row { owner = ""; until = now }

-- release, when Run ends
unfoldable pub release :
    Reply → ℕ → Leadership → Lease → Lease × (Leadership × Option LeadershipEvent)
release reply now l row = if not l.enabled || not l.active then (row, (l, none)) else (elim reply [
  | fails ↦ (row, set_standby (some database) l)
  | answer_lost ↦ (if is_own l row then freed now row else row, set_standby (some database) l)
  | works ↦ (if is_own l row then freed now row else row, set_standby none l)
])

-- What Run makes of a renewal and of an acquisition.
unfoldable pub after_renew :
    Lease × Option LeadershipError → Leadership → Lease × (Leadership × Option LeadershipEvent)
after_renew (row, none) l = (row, (l, none))
after_renew (row, some error) l = (row, set_standby (some error) l)

unfoldable pub after_acquire :
    Lease × Result LeadershipError ℕ → Leadership → Lease × (Leadership × Option LeadershipEvent)
after_acquire (row, ok epoch) l = (row, set_leader epoch l)
after_acquire (row, err error) l = (row, (l, none))

-- One round of the loop in Run
unfoldable pub round :
    Reply → ℕ → Leadership → Lease → Lease × (Leadership × Option LeadershipEvent)
round reply now l row =
    if not l.enabled
    then (row, (l, none))
    else (if l.active
        then after_renew (renew reply now l row) l
        else after_acquire (acquire reply now l row) l)

-- The tests of assertWrite on the row that it reads
unfoldable pub check_row : ℕ → Leadership → Lease → Option LeadershipError
check_row now l row =
    if row.epoch == 0 || not (is_own l row) || leb row.until now then some lost else none

unfoldable pub assert_write : Reply → ℕ → Leadership → Lease → Option LeadershipError
assert_write reply now l row =
    if not l.enabled
    then none
    else (if not l.active then some not_leader else (elim reply [
      | fails ↦ some database
      | answer_lost ↦ some database
      | works ↦ check_row now l row
    ]))

-- commitWriteTx: whether the transaction was committed, and the error. The row is locked from the read
-- to the commit.
unfoldable pub commit_write : Reply → Reply → ℕ → Leadership → Lease → Bool × Option LeadershipError
commit_write read reply now l row = elim (assert_write read now l row) [
  | some error ↦ (false, some error)
  | none ↦ elim reply [
    | works ↦ (true, none)
    | fails ↦ (false, some database)
    | answer_lost ↦ (true, some database)
  ]
]

-- The controllers of one database, by their owner ids, and the writes that were committed, the last
-- first: who wrote, and in which epoch.
pub record World : Type 0 where
  pub row : Lease
  pub controllers : Map String Leadership
  pub commits : List (String × ℕ)

pub data Step : Type 0 where
  start : String → Step
  turn : String → ℕ → Reply → Step
  write : String → ℕ → Reply → Reply → Step
  stop : String → ℕ → Reply → Step

-- A round or a release of one controller.
unfoldable pub moved : World → String → Lease × (Leadership × Option LeadershipEvent) → World
moved w id after = record w { row = after.0; controllers = insert id after.1.0 w.controllers }

unfoldable pub committed : World → Leadership → Bool × Option LeadershipError → World
committed w l (true, error) = record w { commits = (l.owner_id, l.epoch) ∷ w.commits }
committed w l (false, error) = w

-- An owner id is made at the start of a process and is not used by another; one that is taken or empty
-- starts nothing.
unfoldable pub begin : World → String → World
begin w id = elim (lookup id w.controllers) [
  | none ↦
      if id == ""
      then w
      else record w { controllers = insert id (new_leadership true id) w.controllers }
  | some l ↦ w
]

unfoldable pub step : World → Step → World
step w (start id) = begin w id
step w (turn id now reply) = elim (lookup id w.controllers) [
  | none ↦ w
  | some l ↦ moved w id (round reply now l w.row)
]
step w (write id now read reply) = elim (lookup id w.controllers) [
  | none ↦ w
  | some l ↦ committed w l (commit_write read reply now l w.row)
]
step w (stop id now reply) = elim (lookup id w.controllers) [
  | none ↦ w
  | some l ↦ moved w id (release reply now l w.row)
]

unfoldable pub run : World → List Step → World
run w [] = w
run w (s ∷ steps) = run (step w s) steps

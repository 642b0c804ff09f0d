-- ===== src/Controller/Leadership/Tests.antt =====
-- A run of two controllers.
use asterferry.Base.{◌≡◌, refl, List, [], ◌∷◌}
use asterferry.Base.Maps.{lookup, insert}
use asterferry.Controller.Leadership.{
  Lease, World, Step, start, turn, write, stop, works, answer_lost, step, run, begin, moved,
  committed, round, acquire, acquired, renew, renewed, release, freed, after_acquire, after_renew,
  is_free, is_own, set_leader, set_standby, check_row, assert_write, commit_write, new_leadership,
}
use asterferry.Controller.Leadership.Fenced.{InOrder, run-InOrder}

abbrev row : Lease
row = record { owner = ""; epoch = 0; until = 0 }

-- "a" leads until its renewals are lost, "b" takes over, and "a" tries to write again.
abbrev moves : List Step
moves =
    start "a"
    ∷ start "b"
    ∷ turn "a" 100 works
    ∷ write "a" 101 works works
    ∷ turn "b" 110 works
    ∷ turn "b" 120 works
    ∷ write "a" 121 works works
    ∷ write "b" 122 works answer_lost
    ∷ turn "a" 123 works
    ∷ stop "b" 124 works
    ∷ turn "a" 125 works
    ∷ write "a" 126 works works
    ∷ []

abbrev world : World
world = record { row = row; controllers = []; commits = [] }

taken_over : (run world moves).commits ≡ ("a", 3) ∷ ("b", 2) ∷ ("a", 1) ∷ []
unfolding run step begin moved committed round acquire acquired renew renewed release freed
    after_acquire after_renew is_free is_own set_leader set_standby check_row assert_write
    commit_write new_leadership lookup insert
taken_over = refl

run-InOrder_example : InOrder (run world moves).commits
run-InOrder_example = run-InOrder row moves

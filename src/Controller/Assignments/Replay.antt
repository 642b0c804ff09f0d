-- ===== src/Controller/Assignments/Replay.antt =====
-- The idempotency keys of the assignment writes: a call that is made again.
use asterferry.Base.{string_keyed, nat_keyed}
use asterferry.Controller.Assignments.Settled.{Settled}

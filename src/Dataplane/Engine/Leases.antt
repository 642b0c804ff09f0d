-- ===== src/Dataplane/Engine/Leases.antt =====
-- internal/dataplane: an engine and the leases it has handed out, under any sequence of the calls below. The engine's AuthorizeOpen,
-- ReleaseOpen, AuthorizeLocalOpen and ReleaseLocalOpen are not among them: they count without a lease, and
-- only tests call them. The two
-- halves of a release are two calls, so that any other call may come between them; the same holds for
-- the two halves of ApplySnapshot, whose second half may carry any indexes at all.
pub mod Count
pub mod Moves
pub mod Books
pub mod Grants
pub mod Accounts
use asterferry.Base.{ℕ, zero, suc, Option, none, some, List, [], ◌∷◌, String, Result, ok, err}
use asterferry.Afdp.Errors.{Error}
use asterferry.Afdp.Control.{OpenMetadata, SessionHello}
use asterferry.Dataplane.Engine.{
  Engine, OpenLease, reserve_open, reserve_local_open, release, settle, begin_drain, end_drain,
  close, engine_authorize_session, release_session,
}
use asterferry.Dataplane.Engine.Snapshot.{Prepared, commit, reset_snapshot}

pub record System : Type 0 where
  pub engine : Engine
  pub leases : List OpenLease

pub data Call : Type 0 where
  opens : String → OpenMetadata → Call
  opens_local drains undrains closes ends_session : Call
  releases settles : ℕ → Call
  installs : Prepared → Call
  resets : ℕ → Call
  greets : SessionHello → Call

-- A call on the lease at a position; a position that holds none changes nothing.
unfoldable pub on_lease :
    (Engine → OpenLease → Engine × OpenLease) → ℕ → Engine → List OpenLease → System
on_lease f i e [] = record { engine = e; leases = [] }
on_lease f zero e (lease ∷ leases) =
    let r = f e lease in record { engine = r.0; leases = r.1 ∷ leases }
on_lease f (suc i) e (lease ∷ leases) =
    let s = on_lease f i e leases in record s { leases = lease ∷ s.leases }

unfoldable pub grant : System → Result Error (Engine × OpenLease) → System
grant s (ok r) = record { engine = r.0; leases = r.1 ∷ s.leases }
grant s (err error) = s

unfoldable pub step : System → Call → System
step s (opens id value) = grant s (reserve_open s.engine id value)
step s opens_local = grant s (reserve_local_open s.engine)
step s (releases i) = on_lease release i s.engine s.leases
step s (settles i) = on_lease settle i s.engine s.leases
step s (installs p) = record s { engine = (commit s.engine p).0 }
step s (resets expected) = record s { engine = (reset_snapshot s.engine expected).0 }
step s (greets hello) = record s { engine = (engine_authorize_session s.engine hello).0 }
step s drains = record s { engine = begin_drain s.engine }
step s undrains = record s { engine = end_drain s.engine }
step s closes = record s { engine = close s.engine }
step s ends_session = record s { engine = release_session s.engine }

unfoldable pub run : System → List Call → System
run s [] = s
run s (c ∷ cs) = run (step s c) cs

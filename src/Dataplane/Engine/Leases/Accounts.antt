-- ===== src/Dataplane/Engine/Leases/Accounts.antt =====
-- The engine's counters are the leases that have not been given back, over every sequence of calls.
use asterferry.Base.{
  ℕ, suc, ◌+◌, ◌≤◌, ◌<◌, ◌≡◌, ◌≢◌, refl, List, [], ◌∷◌, String, ok, Result-cases, Bool-cases, ◌⊎◌,
  inl, inr, length, sum_by, arith, ◌==◌, nat_keyed, string_keyed, ◌||◌, ◌∙◌, subst,
}
use asterferry.Base.Maps.{lookup, value_or}
use asterferry.Afdp.Control.{SessionHello}
use asterferry.Dataplane.Engine.{
  Options, Engine, OpenLease, new_engine, reserve_open, reserve_local_open, release, settle,
  begin_drain, end_drain, close, engine_authorize_session, reserve_session, release_session,
}
use asterferry.Dataplane.Engine.Snapshot.{Prepared, commit, install, reset_snapshot}
use asterferry.Dataplane.Engine.Leases.{
  System, Call, opens, opens_local, drains, undrains, closes, ends_session, releases, settles,
  installs, resets, greets, grant, step, run, on_lease,
}
use asterferry.Dataplane.Engine.Leases.Count.{
  stream_count, active_count, release-Moved, settle-Moved,
}
use asterferry.Dataplane.Engine.Leases.Moves.{Kept, on_lease-Kept}
use asterferry.Dataplane.Engine.Leases.Books.{
  Inv, SameCounts, same-Inv, unread, Renewed, Renewed-Inv, with_limits-Renewed,
}
use asterferry.Dataplane.Engine.Leases.Grants.{Granted-Inv, open-Granted, local-Granted}

on_lease-Inv :
    (base n : ℕ) (f : Engine → OpenLease → Engine × OpenLease) (i : ℕ) (s : System)
    → Kept s.engine (on_lease f i s.engine s.leases)
    → Inv base n s
    → Inv base (suc n) (on_lease f i s.engine s.leases)
on_lease-Inv base n f i s k v = record {
  balanced = k.balanced;
  epoch_bound = omega (arith, k.same_epoch, v.epoch_bound);
  base_limit = k.same_base ∙ v.base_limit;
  max_limit = omega (arith, k.same_max, v.max_limit);
  within = omega (arith, k.not_more, v.within);
}

authorize-same :
    (e : Engine) (hello : SessionHello) → SameCounts e (engine_authorize_session e hello).0
unfolding engine_authorize_session reserve_session
authorize-same e hello = record {
  streams = ground arith;
  active = ground arith;
  epoch = ground arith;
  base = ground arith;
  max = ground arith;
}

drain-same : (e : Engine) → SameCounts e (end_drain e)
unfolding end_drain
drain-same e = record {
  streams = ground arith;
  active = ground arith;
  epoch = ground arith;
  base = ground arith;
  max = ground arith;
}

commit-cases : (e : Engine) (p : Prepared) → ((commit e p).0 ≡ e) ⊎ ((commit e p).0 ≡ install e p)
unfolding commit
commit-cases e p = ground arith

install-Renewed : (e : Engine) (p : Prepared) → Renewed e (install e p)
unfolding install
install-Renewed e p = with_limits-Renewed e p p.gateway_spec p.agent_spec

reset-cases :
    (e : Engine) (expected : ℕ)
    → ((reset_snapshot e expected).0 ≡ e) ⊎ Renewed e (reset_snapshot e expected).0
unfolding reset_snapshot
reset-cases e expected = elim (Bool-cases (expected == 0 || e.generation == expected)) [
  | inl reset ↦ inr (record {
    streams = ground arith;
    active = ground arith;
    epoch = ground arith;
    base = ground arith;
    max = ground arith;
  })
  | inr refused ↦ inl (ground arith)
]

step-Inv :
    (base n : ℕ) (s : System) (c : Call)
    → suc n < 18446744073709551616
    → Inv base n s
    → Inv base (suc n) (step s c)
unfolding step grant begin_drain close release_session
step-Inv base n s (opens id value) small v = elim (Result-cases (reserve_open s.engine id value)) [
  | inl (r, q) ↦ rw q (Granted-Inv (open-Granted s.engine id value r q) v)
  | inr (error, q) ↦ rw q (same-Inv unread v)
]
step-Inv base n s opens_local small v = elim (Result-cases (reserve_local_open s.engine)) [
  | inl (r, q) ↦ rw q (Granted-Inv (local-Granted s.engine r q) v)
  | inr (error, q) ↦ rw q (same-Inv unread v)
]
step-Inv base n s (releases i) small v =
    on_lease-Inv base n release i s
      (on_lease-Kept release s.engine (release-Moved s.engine) i s.leases v.balanced) v
step-Inv base n s (settles i) small v =
    on_lease-Inv base n settle i s
      (on_lease-Kept settle s.engine (settle-Moved s.engine) i s.leases v.balanced) v
step-Inv base n s (installs p) small v = elim (commit-cases s.engine p) [
  | inl q ↦ rw q (same-Inv unread v)
  | inr q ↦ rw q (Renewed-Inv small (install-Renewed s.engine p) v)
]
step-Inv base n s (resets expected) small v = elim (reset-cases s.engine expected) [
  | inl q ↦ rw q (same-Inv unread v)
  | inr new ↦ Renewed-Inv small new v
]
step-Inv base n s (greets hello) small v = same-Inv (authorize-same s.engine hello) v
step-Inv base n s undrains small v = same-Inv (drain-same s.engine) v
step-Inv base n s drains small v = same-Inv unread v
step-Inv base n s closes small v = same-Inv unread v
step-Inv base n s ends_session small v = same-Inv unread v

run-Inv :
    (base n : ℕ) (s : System) (cs : List Call)
    → n + length cs < 18446744073709551616
    → Inv base n s
    → Inv base (n + length cs) (run s cs)
unfolding run
run-Inv base n s [] small v = subst (λ m. Inv base m s) (omega arith) v
run-Inv base n s (c ∷ cs) small v =
    subst (λ m. Inv base m (run (step s c) cs)) (omega arith)
      (run-Inv base (suc n) (step s c) cs (omega (arith, small))
        (step-Inv base n s c (omega (arith, small)) v))

abbrev pub started : Engine → System
started e = record { engine = e; leases = [] }

new-Inv :
    (options : Options) (e : Engine) → new_engine options ≡ ok e → Inv e.max_streams 0 (started e)
unfolding new_engine value_or lookup
new-Inv options e h = record {
  balanced = record {
    streams = ground arith;
    active = λ id named. new_active id (ground arith);
    epochs = tt;
  };
  epoch_bound = ground arith;
  base_limit = ground arith;
  max_limit = omega arith;
  within = ground arith;
}
  where
    new_active : (id : String) → e.active ≡ [] → value_or id e.active 0 ≡ 0
    new_active id q = rw q refl

-- From a new engine, after fewer than 2^64 calls, in any order, of ReserveOpen, ReserveLocalOpen,
-- the two halves of the release of a lease, the commit of ApplySnapshot, ResetSnapshot,
-- AuthorizeSession, ReleaseSession, BeginDrain, EndDrain and Close, the stream counter is the number
-- of leases whose stream has not been given back, and is at most the node stream limit; and the
-- counter of each assignment is the number of its leases of the current epoch that have not been
-- settled, so that a lease of an older snapshot never changes it. AuthorizeOpen, ReleaseOpen,
-- AuthorizeLocalOpen and ReleaseLocalOpen, which count without a lease, are not among the calls.
pub run_accounts :
    (options : Options) (e : Engine) (cs : List Call)
    → new_engine options ≡ ok e
    → length cs < 18446744073709551616
    → let s = run (started e) cs in
      (s.engine.streams ≡ sum_by stream_count s.leases)
      × (s.engine.streams ≤ e.max_streams)
      × ((id : String)
          → id ≢ ""
          → value_or id s.engine.active 0 ≡ sum_by (active_count id s.engine.epoch) s.leases)
run_accounts options e cs h small =
    let v = run-Inv e.max_streams 0 (started e) cs (omega (arith, small)) (new-Inv options e h) in
    (v.balanced.streams, v.within, v.balanced.active)

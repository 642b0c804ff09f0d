-- ===== src/Dataplane/Engine/Leases/Moves.antt =====
-- A call on one lease of a list, and what it does to sums over the list.
use asterferry.Base.{
  ℕ, zero, suc, ◌+◌, ◌≤◌, ◌≡◌, ◌⊎◌, inl, inr, refl, List, [], ◌∷◌, All, sum_by, arith, subst, sym,
}
use asterferry.Dataplane.Engine.{Engine, OpenLease}
use asterferry.Dataplane.Engine.Leases.{System, on_lease}
use asterferry.Dataplane.Engine.Leases.Count.{Balanced, Moved, stream_count, active_count}

abbrev Bounded : ℕ → List OpenLease → Type 0
Bounded epoch = All (λ (lease : OpenLease). lease.epoch ≤ epoch)

-- One lease of the list was replaced.
record Replaced (e : Engine) (leases : List OpenLease) (s : System) : Type 0 where
  before : OpenLease
  after : OpenLease
  moved : Moved e s.engine before after
  sums : (g : OpenLease → ℕ) → sum_by g s.leases + g before ≡ sum_by g leases + g after
  bounded : (epoch : ℕ) → Bounded epoch leases → Bounded epoch s.leases

-- What the counters are after a call on one lease.
pub record Kept (e : Engine) (s : System) : Type 0 where
  pub balanced : Balanced s.engine s.leases
  pub same_epoch : s.engine.epoch ≡ e.epoch
  pub same_base : s.engine.base_max_streams ≡ e.base_max_streams
  pub same_max : s.engine.max_streams ≡ e.max_streams
  pub not_more : s.engine.streams ≤ e.streams

module _ (f : Engine → OpenLease → Engine × OpenLease) (e : Engine)
    (moves : (lease : OpenLease) → Moved e (f e lease).0 lease (f e lease).1) where
  on_lease-cases :
      (i : ℕ) (leases : List OpenLease)
      → (on_lease f i e leases ≡ record { engine = e; leases = leases })
        ⊎ Replaced e leases (on_lease f i e leases)
  unfolding on_lease
  on_lease-cases i [] = inl refl
  on_lease-cases zero (lease ∷ leases) = inr (record {
    before = lease;
    after = (f e lease).1;
    moved = moves lease;
    sums = λ g. omega arith;
    bounded = λ epoch b. (subst (λ n. n ≤ epoch) (sym (moves lease).same_lease) b.0, b.1);
  })
  on_lease-cases (suc i) (lease ∷ leases) = elim (on_lease-cases i leases) [
    | inl same ↦ inl (rw same refl)
    | inr r ↦ inr (record {
      before = r.before;
      after = r.after;
      moved = r.moved;
      sums = λ g. omega (arith, r.sums g);
      bounded = λ epoch b. (b.0, r.bounded epoch b.1);
    })
  ]

  pub on_lease-Kept :
      (i : ℕ) (leases : List OpenLease) → Balanced e leases → Kept e (on_lease f i e leases)
  on_lease-Kept i leases b = elim (on_lease-cases i leases) [
    | inl same ↦ rw same (record {
      balanced = b;
      same_epoch = refl;
      same_base = refl;
      same_max = refl;
      not_more = omega arith;
    })
    | inr r ↦
        let s : System = on_lease f i e leases in
        record {
          balanced = record {
            streams =
                omega
                  (arith, r.moved.streams, r.moved.loses_stream, r.sums stream_count, b.streams);
            active = λ id named. rw r.moved.same_epoch (
                omega (
                  arith,
                  r.moved.active id named,
                  r.moved.loses_active id,
                  r.sums (active_count id e.epoch),
                  b.active id named,
                ));
            epochs = rw r.moved.same_epoch (r.bounded e.epoch b.epochs);
          };
          same_epoch = r.moved.same_epoch;
          same_base = r.moved.same_base;
          same_max = r.moved.same_max;
          not_more = omega (arith, r.moved.streams);
        }
  ]

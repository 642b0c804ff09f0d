-- ===== src/Dataplane/Engine/Leases/Books.antt =====
-- The invariant of the counters, and what keeps it while no lease is granted: calls that do not touch
-- the counters, and the start of a new epoch.
use asterferry.Base.{
  ℕ, suc, ◌≤◌, ◌<◌, Bool, ◌≡◌, refl, sym, Option, none, some, List, [], ◌∷◌, String, sum_by, All,
  All-map, arith, nat_keyed, string_keyed, ◌∙◌,
}
use asterferry.Base.Maps.{lookup, value_or}
use asterferry.Domain.Types.{GatewaySpec, AgentSpec}
use asterferry.Dataplane.Engine.{Engine, OpenLease, next_epoch, tighten}
use asterferry.Dataplane.Engine.Snapshot.{Prepared, with_limits}
use asterferry.Dataplane.Engine.Leases.{System}
use asterferry.Dataplane.Engine.Leases.Count.{Balanced, active_count}

-- What every sequence of `n` calls keeps, for an engine whose own stream limit is `base`.
pub record Inv (base n : ℕ) (s : System) : Type 0 where
  pub balanced : Balanced s.engine s.leases
  pub epoch_bound : s.engine.epoch ≤ n
  pub base_limit : s.engine.base_max_streams ≡ base
  pub max_limit : s.engine.max_streams ≤ base
  pub within : s.engine.streams ≤ base

-- The fields that the accounts do not read may change.
pub record SameCounts (e e' : Engine) : Type 0 where
  pub streams : e'.streams ≡ e.streams
  pub active : e'.active ≡ e.active
  pub epoch : e'.epoch ≡ e.epoch
  pub base : e'.base_max_streams ≡ e.base_max_streams
  pub max : e'.max_streams ≡ e.max_streams

module _ {base n : ℕ} {e e' : Engine} {leases : List OpenLease} where
  pub same-Inv :
      SameCounts e e'
      → Inv base n (record { engine = e; leases = leases })
      → Inv base (suc n) (record { engine = e'; leases = leases })
  same-Inv same v = record {
    balanced = record {
      streams = same.streams ∙ v.balanced.streams;
      active = λ id named. rw (same.active, same.epoch) (v.balanced.active id named);
      epochs = rw same.epoch v.balanced.epochs;
    };
    epoch_bound = omega (arith, same.epoch, v.epoch_bound);
    base_limit = same.base ∙ v.base_limit;
    max_limit = omega (arith, same.max, v.max_limit);
    within = omega (arith, same.streams, v.within);
  }

-- Only fields that the accounts do not read have changed.
module _ {e : Engine} where
  pub unread :
      {draining closed : Bool} {sessions : ℕ}
      → SameCounts e (record e { draining = draining; closed = closed; sessions = sessions })
  unread = record { streams = refl; active = refl; epoch = refl; base = refl; max = refl }

pub stale-none :
    (id : String) (epoch : ℕ) (leases : List OpenLease)
    → All (λ (lease : OpenLease). lease.epoch ≤ epoch) leases
    → sum_by (active_count id (suc epoch)) leases ≡ 0
stale-none id epoch [] b = refl
stale-none id epoch (lease ∷ leases) b = ground (arith, stale-none id epoch leases b.1, b.0)

-- A new epoch starts with no lease in any assignment's count.
pub record Renewed (e e' : Engine) : Type 0 where
  pub streams : e'.streams ≡ e.streams
  pub active : e'.active ≡ []
  pub epoch : e'.epoch ≡ next_epoch e.epoch
  pub base : e'.base_max_streams ≡ e.base_max_streams
  pub max : e'.max_streams ≤ e.base_max_streams

module _ {base n : ℕ} {e e' : Engine} {leases : List OpenLease} where
  pub Renewed-Inv :
      suc n < 18446744073709551616
      → Renewed e e'
      → Inv base n (record { engine = e; leases = leases })
      → Inv base (suc n) (record { engine = e'; leases = leases })
  unfolding value_or lookup
  Renewed-Inv small new v =
      let later : e'.epoch ≡ suc e.epoch = omega (arith, new.epoch, v.epoch_bound, small) in
      record {
        balanced = record {
          streams = new.streams ∙ v.balanced.streams;
          active = λ id named.
              rw (new.active, later) (sym (stale-none id e.epoch leases v.balanced.epochs));
          epochs = rw later (
              All-map (λ (lease : OpenLease). lease.epoch ≤ e.epoch)
                (λ (lease : OpenLease). lease.epoch ≤ suc e.epoch) leases
                (λ lease b. omega (arith, b)) v.balanced.epochs);
        };
        epoch_bound = omega (arith, later, v.epoch_bound);
        base_limit = new.base ∙ v.base_limit;
        max_limit = omega (arith, new.max, v.base_limit);
        within = omega (arith, new.streams, v.within);
      }

pub with_limits-Renewed :
    (e : Engine) (p : Prepared) (g : Option GatewaySpec) (a : Option AgentSpec)
    → Renewed e (
        with_limits
          (record e {
            assignments = p.assignments;
            services = p.services;
            generation = p.generation;
            epoch = next_epoch e.epoch;
            active = [];
            gateway_spec = p.gateway_spec;
            agent_spec = p.agent_spec;
          })
          g
          a)
unfolding with_limits tighten
with_limits-Renewed e p g (some spec) = record {
  streams = refl;
  active = refl;
  epoch = refl;
  base = refl;
  max = ground arith;
}
with_limits-Renewed e p (some spec) none = record {
  streams = refl;
  active = refl;
  epoch = refl;
  base = refl;
  max = ground arith;
}
with_limits-Renewed e p none none = record {
  streams = refl;
  active = refl;
  epoch = refl;
  base = refl;
  max = omega arith;
}

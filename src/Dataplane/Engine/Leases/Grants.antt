-- ===== src/Dataplane/Engine/Leases/Grants.antt =====
-- A granted lease keeps the invariant of the counters.
use asterferry.Base.{
  ℕ, suc, ◌+◌, ◌≤◌, ◌≡◌, ◌≢◌, refl, sym, List, ◌∷◌, String, ok, Result-cases, inl, inr, sum_by, All,
  arith, ap, nat_keyed, string_keyed, ◌∙◌, subst,
}
use asterferry.Base.Maps.{insert, value_or}
use asterferry.Afdp.Control.{OpenMetadata}
use asterferry.Dataplane.Engine.{
  Engine, OpenLease, reserve_open, reserve_local_open, reserve_stream, lease_of,
}
use asterferry.Dataplane.Engine.Reserve.{counted-parts, open-parts}
use asterferry.Dataplane.Engine.Leases.Count.{stream_count, active_count, value_or-insert}
use asterferry.Dataplane.Engine.Leases.Books.{Inv}

-- A granted lease: what the engine is and what the lease counts towards.
pub record Granted (e e' : Engine) (lease : OpenLease) : Type 0 where
  pub streams : e'.streams ≡ e.streams + 1
  pub bounded : e'.streams ≤ e.max_streams
  pub active :
      (id : String)
      → id ≢ ""
      → value_or id e'.active 0 ≡ value_or id e.active 0 + active_count id e.epoch lease
  pub epoch : e'.epoch ≡ e.epoch
  pub base : e'.base_max_streams ≡ e.base_max_streams
  pub max : e'.max_streams ≡ e.max_streams
  pub fresh : stream_count lease ≡ 1
  pub current : lease.epoch ≡ e.epoch

module _ {base n : ℕ} {e e' : Engine} {leases : List OpenLease} {lease : OpenLease} where
  pub Granted-Inv :
      Granted e e' lease
      → Inv base n (record { engine = e; leases = leases })
      → Inv base (suc n) (record { engine = e'; leases = lease ∷ leases })
  Granted-Inv g v = record {
    balanced = record {
      streams = omega (arith, g.streams, g.fresh, v.balanced.streams);
      active = λ id named.
          subst (λ m. value_or id e'.active 0 ≡ sum_by (active_count id m) (lease ∷ leases))
            (sym g.epoch) (omega (arith, g.active id named, v.balanced.active id named));
      epochs =
          subst (λ m. All (λ (l : OpenLease). l.epoch ≤ m) (lease ∷ leases)) (sym g.epoch)
            (omega (arith, g.current), v.balanced.epochs);
    };
    epoch_bound = omega (arith, g.epoch, v.epoch_bound);
    base_limit = g.base ∙ v.base_limit;
    max_limit = omega (arith, g.max, v.max_limit);
    within = omega (arith, g.bounded, v.max_limit);
  }

-- What a reservation of a stream leaves alone.
pub stream-parts :
    (e s : Engine)
    → reserve_stream e ≡ ok s
    → (s ≡ record e { streams = e.streams + 1 }) × (e.streams + 1 ≤ e.max_streams)
unfolding reserve_stream
stream-parts e s h = (ground arith, ground arith)

pub counted_engine : Engine → String → Engine
counted_engine e id = record e {
  streams = e.streams + 1;
  active = insert id (value_or id e.active 0 + 1) e.active;
}

pub counted-Granted :
    (e : Engine) (id : String)
    → e.streams + 1 ≤ e.max_streams
    → Granted e (counted_engine e id) (lease_of e id)
unfolding counted_engine
counted-Granted e id bound = record {
  streams = refl;
  bounded = bound;
  active = λ asked named. ground (
    arith,
    value_or-insert id asked (value_or id e.active 0 + 1) e.active,
    string_keyed.same_iff id asked,
  );
  epoch = refl;
  base = refl;
  max = refl;
  fresh = refl;
  current = refl;
}

pub local-counted :
    (e : Engine)
    → e.streams + 1 ≤ e.max_streams
    → Granted e (record e { streams = e.streams + 1 }) (lease_of e "")
local-counted e bound = record {
  streams = refl;
  bounded = bound;
  active = λ asked named. ground (arith, string_keyed.same_iff "" asked);
  epoch = refl;
  base = refl;
  max = refl;
  fresh = refl;
  current = refl;
}

module _ {e e' s : Engine} {lease other : OpenLease} where
  pub same-Granted : e' ≡ s → lease ≡ other → Granted e s other → Granted e e' lease
  same-Granted p q g = subst (λ x. Granted e x lease) (sym p) (subst (Granted e s) (sym q) g)

pub open-Granted :
    (e : Engine) (id : String) (value : OpenMetadata) (r : Engine × OpenLease)
    → reserve_open e id value ≡ ok r
    → Granted e r.0 r.1
unfolding counted_engine
open-Granted e id value r h =
    let (assignment, accepting, known, authorized, allowed, counted) = open-parts e id value r h in
    let (s, reserved, q, below, leased) = counted-parts e r.0 id assignment r.1 counted in
    let (same, bound) = stream-parts e s reserved in
    let built : r.0 ≡ counted_engine e id =
      q
      ∙ ap (λ (x : Engine). record x { active = insert id (value_or id e.active 0 + 1) e.active })
          same in
    same-Granted built leased (counted-Granted e id bound)

pub local-Granted :
    (e : Engine) (r : Engine × OpenLease) → reserve_local_open e ≡ ok r → Granted e r.0 r.1
unfolding reserve_local_open
local-Granted e r h = elim (Result-cases (reserve_stream e)) [
  | inr (error, q) ↦ absurd (ground arith)
  | inl (s, q) ↦
      let (same, bound) = stream-parts e s q in
      let first : r.0 ≡ s = ground arith in
      let second : r.1 ≡ lease_of e "" = ground arith in
      same-Granted (first ∙ same) second (local-counted e bound)
]

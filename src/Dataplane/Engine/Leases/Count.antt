-- ===== src/Dataplane/Engine/Leases/Count.antt =====
-- The leases that count towards a counter of the engine, and how a release changes their number.
use asterferry.Base.{
  ℕ, ◌-◌, ◌≤◌, Bool, true, false, ◌&&◌, ◌≡◌, ◌≢◌, refl, List, String, All, sum_by, if◌then◌else◌,
  ◌==◌, nat_keyed, string_keyed, arith,
}
use asterferry.Base.Maps.{Map, insert, erase, value_or, lookup-insert, lookup-erase}
use asterferry.Dataplane.Engine.{
  Engine, OpenLease, Stage, held, stream_returned, returned, release, settle, settle_lease,
  release_active, release_stream_reservation,
}

-- A lease whose stream is still reserved
abbrev pub stream_count : OpenLease → ℕ
stream_count lease = elim lease.stage [ held ↦ 1 | stream_returned ↦ 0 | returned ↦ 0 ]

abbrev pub is_counted : Stage → Bool
is_counted held = true
is_counted stream_returned = true
is_counted returned = false

-- A lease of the current epoch that an assignment's count still holds
abbrev pub active_count : String → ℕ → OpenLease → ℕ
active_count id epoch lease =
    if is_counted lease.stage && lease.epoch == epoch && lease.assignment_id == id then 1 else 0

-- What holds of the engine and its leases.
pub record Balanced (e : Engine) (leases : List OpenLease) : Type 0 where
  pub streams : e.streams ≡ sum_by stream_count leases
  pub active :
      (id : String) → id ≢ "" → value_or id e.active 0 ≡ sum_by (active_count id e.epoch) leases
  pub epochs : All (λ (lease : OpenLease). lease.epoch ≤ e.epoch) leases

pub value_or-insert :
    (key asked : String) (v : ℕ) (m : Map String ℕ)
    → value_or asked (insert key v m) 0 ≡ (if key == asked then v else value_or asked m 0)
unfolding value_or
value_or-insert key asked v m = ground (arith, lookup-insert key asked v m)

pub value_or-erase :
    (key asked : String) (m : Map String ℕ)
    → value_or asked (erase key m) 0 ≡ (if key == asked then 0 else value_or asked m 0)
unfolding value_or
value_or-erase key asked m = ground (arith, lookup-erase key asked m)

pub value_or-release_active :
    (e : Engine) (id asked : String)
    → value_or asked (release_active e id).active 0
      ≡ value_or asked e.active 0 - (if id == asked then 1 else 0)
unfolding release_active
value_or-release_active e id asked = ground (
  arith,
  value_or-erase id asked e.active,
  value_or-insert id asked (value_or id e.active 0 - 1) e.active,
  string_keyed.same_iff id asked,
)

module _ (e : Engine) (id : String) where
  kept_streams : (release_active e id).streams ≡ e.streams
  unfolding release_active
  kept_streams = refl

  kept_epoch : (release_active e id).epoch ≡ e.epoch
  unfolding release_active
  kept_epoch = refl

  kept_base : (release_active e id).base_max_streams ≡ e.base_max_streams
  unfolding release_active
  kept_base = refl

  kept_max : (release_active e id).max_streams ≡ e.max_streams
  unfolding release_active
  kept_max = refl

-- What is left of an engine's counters when one lease has moved.
pub record Moved (e e' : Engine) (lease lease' : OpenLease) : Type 0 where
  pub streams : e'.streams ≡ e.streams - (stream_count lease - stream_count lease')
  pub loses_stream : stream_count lease' ≤ stream_count lease
  pub active :
      (id : String)
      → id ≢ ""
      → value_or id e'.active 0
        ≡ value_or id e.active 0 - (active_count id e.epoch lease - active_count id e.epoch lease')
  pub loses_active : (id : String) → active_count id e.epoch lease' ≤ active_count id e.epoch lease
  pub same_epoch : e'.epoch ≡ e.epoch
  pub same_lease : lease'.epoch ≡ lease.epoch
  pub same_base : e'.base_max_streams ≡ e.base_max_streams
  pub same_max : e'.max_streams ≡ e.max_streams

pub release-Moved :
    (e : Engine) (lease : OpenLease) → Moved e (release e lease).0 lease (release e lease).1
unfolding release release_stream_reservation
release-Moved e lease = record {
  streams = ground arith;
  loses_stream = ground arith;
  active = λ id named. ground arith;
  loses_active = λ id. ground arith;
  same_epoch = ground arith;
  same_lease = ground arith;
  same_base = ground arith;
  same_max = ground arith;
}

pub settle-Moved :
    (e : Engine) (lease : OpenLease) → Moved e (settle e lease).0 lease (settle e lease).1
unfolding settle settle_lease
settle-Moved e lease = record {
  streams = ground (arith, kept_streams e lease.assignment_id);
  loses_stream = ground arith;
  active = λ id named. ground (
    arith,
    value_or-release_active e lease.assignment_id id,
    string_keyed.same_iff lease.assignment_id id,
    string_keyed.same_iff lease.assignment_id "",
  );
  loses_active = λ id. ground arith;
  same_epoch = ground (arith, kept_epoch e lease.assignment_id);
  same_lease = ground arith;
  same_base = ground (arith, kept_base e lease.assignment_id);
  same_max = ground (arith, kept_max e lease.assignment_id);
}

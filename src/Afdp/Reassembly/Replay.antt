-- ===== src/Afdp/Reassembly/Replay.antt =====
-- A completed flow is not taken for a fresh one.
use asterferry.Base.{
  ℕ, ◌+◌, ◌-◌, ◌*◌, ◌<◌, ◌≡◌, refl, true, false, some, List, [], ◌∷◌, ok, err, ltb, length, arith,
  nat_keyed, Bool-cases, Option-cases, inl, inr, ap, sym, subst, ◌∙◌,
}
use asterferry.Base.Maps.{Map, lookup, insert, erase, lookup-erase, lookup-insert_self}
use asterferry.Afdp.Errors.{malformed_frame}
use asterferry.Afdp.Datagram.{DatagramHeader, decode_datagram}
use asterferry.Afdp.Reassembly.{
  FlowKey, FragmentSet, CompletedEntry, Reassembler, flow_keyed, flow_beq_iff, is_current,
  expire_completed, expire_locked, make_room, remember, AddResult, drop_flow, finish, add_fragment,
  header_key, with_part, fresh_set, add_locked, add,
}

-- A flow that was completed less than `timeout` ago is still remembered.
expire_completed-young :
    (now timeout : ℕ) (key : FlowKey) (t : ℕ) (order : List CompletedEntry)
    (completed : Map FlowKey ℕ)
    → now - t < timeout
    → lookup key completed ≡ some t
    → lookup key (expire_completed now timeout order completed).0 ≡ some t
unfolding expire_completed
expire_completed-young now timeout key t [] completed y l = l
expire_completed-young now timeout key t (e ∷ order) completed y l =
    elim (Bool-cases (ltb (now - e.at) timeout)) [
      | inl young ↦ rw young l
      | inr old ↦ rw old (elim (Bool-cases (is_current e completed)) [
        | inl current ↦ rw current (
            expire_completed-young now timeout key t order (erase e.key completed) y
              (other_key current old))
        | inr stale ↦ rw stale (expire_completed-young now timeout key t order completed y l)
      ])
    ]
  where
    other_key :
        is_current e completed ≡ true
        → ltb (now - e.at) timeout ≡ false
        → lookup key (erase e.key completed) ≡ some t
    other_key c o =
        unfold is_current in
        ground (arith, lookup-erase e.key key completed, flow_beq_iff e.key key)

-- The last fragment's `Add` remembers the flow.
finish-remembered :
    (r : Reassembler) (key : FlowKey) (set : FragmentSet) (now : ℕ) (payload : List ℕ)
    → (finish r key set now).1 ≡ ok (some payload)
    → (lookup key (finish r key set now).0.completed ≡ some now)
      × ((finish r key set now).0.timeout ≡ r.timeout)
unfolding finish remember drop_flow
finish-remembered r key set now payload h = ground (
  arith,
  lookup-insert_self key now (make_room (r.max_flows * 2) r.completed_order r.completed).0,
)

add_fragment-remembered :
    (r : Reassembler) (key : FlowKey) (set : FragmentSet) (h : DatagramHeader) (payload : List ℕ)
    (now : ℕ) (result : List ℕ)
    → (add_fragment r key set h payload now).1 ≡ ok (some result)
    → (lookup key (add_fragment r key set h payload now).0.completed ≡ some now)
      × ((add_fragment r key set h payload now).0.timeout ≡ r.timeout)
unfolding add_fragment
add_fragment-remembered r key set h payload now result e = ground (
  arith,
  finish-remembered
      (record r {
        flows = insert key (with_part set h.fragment_index payload) r.flows;
        bytes = r.bytes + length payload;
      })
      key (with_part set h.fragment_index payload) now result,
)

add_locked-remembered :
    (r : Reassembler) (h : DatagramHeader) (payload : List ℕ) (now : ℕ) (result : List ℕ)
    → (add_locked r h payload now).1 ≡ ok (some result)
    → (lookup (header_key h) (add_locked r h payload now).0.completed ≡ some now)
      × ((add_locked r h payload now).0.timeout ≡ r.timeout)
unfolding add_locked
add_locked-remembered r h payload now result e =
    elim (Option-cases (lookup (header_key h) r.completed)) [
      | inr (t, replayed) ↦ ground (arith, replayed)
      | inl new ↦ elim (Option-cases (lookup (header_key h) r.flows)) [
        | inr (set, found) ↦
            ground
              (arith, new, found, add_fragment-remembered r (header_key h) set h payload now result)
        | inl absent ↦ ground (
          arith,
          new,
          absent,
          add_fragment-remembered
              (record r { flows = insert (header_key h) (fresh_set h now) r.flows }) (header_key h)
              (fresh_set h now) h payload now result,
        )
      ]
    ]

-- A datagram of a flow that is remembered is refused, and only expiry changes the reassembler.
add-remembered :
    (r : Reassembler) (h : DatagramHeader) (payload bytes : List ℕ) (t now clock : ℕ)
    → decode_datagram bytes r.max_payload ≡ ok (h, payload)
    → lookup (header_key h) r.completed ≡ some t
    → 0 < now
    → now - t < r.timeout
    → add r bytes now clock ≡ (expire_locked r now, err malformed_frame)
unfolding add add_locked
add-remembered r h payload bytes t now clock d l pos y = ground (arith, kept)
  where
    kept : lookup (header_key h) (expire_locked r now).completed ≡ some t
    kept =
        unfold expire_locked in
        expire_completed-young now r.timeout (header_key h) t r.completed_order r.completed y l

-- When an Add at a positive time t has returned a payload and the very next call is an Add, at a
-- positive time less than the timeout after t, of a datagram of the same flow and sequence, that Add
-- is refused as malformed, and only expiry changes the reassembler.
pub add_replayed :
    (r s : Reassembler) (first second result part part' : List ℕ) (h h' : DatagramHeader)
    (t now clock clock' : ℕ)
    → add r first t clock ≡ (s, ok (some result))
    → decode_datagram first r.max_payload ≡ ok (h, part)
    → decode_datagram second s.max_payload ≡ ok (h', part')
    → header_key h ≡ header_key h'
    → 0 < t
    → 0 < now
    → now - t < r.timeout
    → add s second now clock' ≡ (expire_locked s now, err malformed_frame)
unfolding add
add_replayed r s first second result part part' h h' t now clock clock' e d d' same pos pos' y =
    let q = opened e d in
    let (kept, same_timeout) =
      add_locked-remembered (expire_locked r t) h part t result
        (ap (λ (x : Reassembler × AddResult). x.1) q) in
    add-remembered s h' part' second t now clock' d'
      (subst (λ (k : FlowKey). lookup k s.completed ≡ some t) same
        (ap (λ (x : Reassembler × AddResult). lookup (header_key h) x.0.completed) (sym q) ∙ kept))
      pos'
      (omega
        (arith, y, same_timeout, ap (λ (x : Reassembler × AddResult). x.0.timeout) q, unchanged))
  where
    opened :
        add r first t clock ≡ (s, ok (some result))
        → decode_datagram first r.max_payload ≡ ok (h, part)
        → add_locked (expire_locked r t) h part t ≡ (s, ok (some result))
    opened e d = ground arith

    unchanged : (expire_locked r t).timeout ≡ r.timeout
    unchanged = unfold expire_locked in refl

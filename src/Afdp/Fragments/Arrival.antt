-- ===== src/Afdp/Fragments/Arrival.antt =====
-- A reassembler that has received some of the fragments of a payload, and the arrival of one more.
use native.Mathlib.Nat.{zero-add}
use asterferry.Base.{
  ℕ, suc, ◌+◌, ◌-◌, ◌*◌, ◌%◌, ◌≤◌, ◌<◌, ◌≡◌, ◌≢◌, ap, ◌∙◌, false, none, some, List, [], ◌∷◌, ok,
  length, drop, arith, if◌then◌else◌, nat_keyed,
}
use asterferry.Base.Maps.{
  Map, lookup, insert, erase, lookup-insert, lookup-insert_self, lookup-erase,
}
use asterferry.Base.Maps.Count.{length-insert_new}
use asterferry.Base.Distinct.{elem, Distinct, Below, pigeonhole}
use asterferry.Afdp.Datagram.{normalize_datagram_payload_limit}
use asterferry.Afdp.Reassembly.{
  FlowKey, FragmentSet, CompletedEntry, Reassembler, flow_keyed, expire_flows, expire_completed,
  expire_locked, gather, finish, with_part, add_fragment,
}
use asterferry.Afdp.Reassembly.Accounting.{expire_flows-le}
use asterferry.Afdp.Reassembly.Invariant.{Inv, expire_locked-Inv, store-Inv}
use asterferry.Afdp.Fragments.{slice, fragment_header}
use asterferry.Afdp.Fragments.Slices.{length-slice-le, gather-slices}

-- A set that was created just now does not expire.
expire_flows-found :
    (now timeout : ℕ) (key : FlowKey) (set : FragmentSet) (flows : Map FlowKey FragmentSet)
    (bytes : ℕ)
    → 0 < timeout
    → set.created ≡ now
    → lookup key flows ≡ some set
    → lookup key (expire_flows now timeout flows bytes).0 ≡ some set
unfolding expire_flows lookup
expire_flows-found now timeout key set [] bytes t c l = absurd (cc)
expire_flows-found now timeout key set ((k, s) ∷ flows) bytes t c l = ground (
  arith,
  expire_flows-found now timeout key set flows (bytes - s.bytes) t c,
  expire_flows-found now timeout key set flows bytes t c,
)

pub expire_completed-absent :
    (now timeout : ℕ) (key : FlowKey) (order : List CompletedEntry) (completed : Map FlowKey ℕ)
    → lookup key completed ≡ none
    → lookup key (expire_completed now timeout order completed).0 ≡ none
unfolding expire_completed
expire_completed-absent now timeout key [] completed l = l
expire_completed-absent now timeout key (e ∷ order) completed l = ground (
  arith,
  expire_completed-absent now timeout key order (erase e.key completed),
  expire_completed-absent now timeout key order completed,
  lookup-erase e.key key completed,
)

abbrev pub this_key : ℕ → ℕ → FlowKey
this_key flow_id sequence = record { flow_id = flow_id; sequence = sequence }

module _ (flow_id sequence count p now : ℕ) (payload : List ℕ) where
  -- `set` holds exactly the fragments in `seen`, and there is space for `left` more.
  pub record Waiting (r : Reassembler) (set : FragmentSet) (seen : List ℕ) (left : ℕ) : Type 0 where
    pub inv : Inv r
    pub found : lookup (this_key flow_id sequence) r.flows ≡ some set
    pub fresh : lookup (this_key flow_id sequence) r.completed ≡ none
    pub created : set.created ≡ now
    pub counted : set.count ≡ count
    pub held :
        (j : ℕ) → lookup j set.parts ≡ (if elem j seen then some (slice p payload j) else none)
    pub size : length set.parts ≡ length seen
    pub patient : 0 < r.timeout
    pub space : r.bytes + left * p ≤ r.max_bytes
    pub accepts : p ≤ normalize_datagram_payload_limit r.max_payload

module _ (flow_id sequence count p now : ℕ) (payload : List ℕ) where
  abbrev pub Waits : Reassembler → FragmentSet → List ℕ → ℕ → Type 0
  Waits = Waiting flow_id sequence count p now payload

  pub expire_locked-Waiting :
      (r : Reassembler) (set : FragmentSet) (seen : List ℕ) (left : ℕ)
      → Waits r set seen left
      → Waits (expire_locked r now) set seen left
  unfolding expire_locked
  expire_locked-Waiting r set seen left w = record {
    inv = unfold expire_locked in expire_locked-Inv r now w.inv;
    found =
        expire_flows-found now r.timeout (this_key flow_id sequence) set r.flows r.bytes w.patient
          w.created w.found;
    fresh =
        expire_completed-absent now r.timeout (this_key flow_id sequence) r.completed_order
          r.completed w.fresh;
    created = w.created;
    counted = w.counted;
    held = w.held;
    size = w.size;
    patient = w.patient;
    space = omega (arith, w.space, expire_flows-le now r.timeout r.flows r.bytes);
    accepts = w.accepts;
  }

  abbrev pub stored : Reassembler → FragmentSet → ℕ → Reassembler
  stored r set j = record r {
    flows = insert (this_key flow_id sequence) (with_part set j (slice p payload j)) r.flows;
    bytes = r.bytes + length (slice p payload j);
  }

  pub stored-Waiting :
      (r : Reassembler) (set : FragmentSet) (seen : List ℕ) (left j : ℕ)
      → Waits r set seen (suc left)
      → elem j seen ≡ false
      → Waits (stored r set j) (with_part set j (slice p payload j)) (j ∷ seen) left
  stored-Waiting r set seen left j w new = record {
    inv =
        store-Inv r (this_key flow_id sequence) set j (slice p payload j) w.found absent fits w.inv;
    found = lookup-insert_self _ _ r.flows;
    fresh = w.fresh;
    created = w.created;
    counted = w.counted;
    held = λ k. ground (arith, w.held k, lookup-insert j k (slice p payload j) set.parts);
    size = length-insert_new j (slice p payload j) set.parts absent ∙ ap suc w.size;
    patient = w.patient;
    space = space';
    accepts = w.accepts;
  }
    where
      absent : lookup j set.parts ≡ none
      absent = rw (w.held j, new)

      small : length (slice p payload j) ≤ p
      small = length-slice-le p j payload

      fits : r.bytes + length (slice p payload j) ≤ r.max_bytes
      fits = omega (arith, w.space, small)

      space' : r.bytes + length (slice p payload j) + left * p ≤ r.max_bytes
      space' = omega (arith, w.space, small)

  -- One more fragment, before the last: it is stored, and nothing is returned.
  pub add_fragment-pending :
      (r : Reassembler) (set : FragmentSet) (seen : List ℕ) (left j : ℕ)
      → Waits r set seen (suc left)
      → elem j seen ≡ false
      → count ≤ 1024
      → j < count
      → suc (length seen) ≢ count
      → add_fragment r
          (this_key flow_id sequence)
          set
          (fragment_header flow_id sequence count j)
          (slice p payload j)
          now
        ≡ (stored r set j, ok none)
  unfolding add_fragment finish
  add_fragment-pending r set seen left j w new many below unfinished =
      let v = stored-Waiting r set seen left j w new in
      rw (narrow j below many, narrow_count many)
        (ground (arith, w.held j, w.counted, v.size, v.inv.byte_limit))
    where
      narrow : (i : ℕ) → i < count → count ≤ 1024 → i % 65536 ≡ i
      narrow i l m = omega arith

      narrow_count : count ≤ 1024 → count % 65536 ≡ count
      narrow_count m = omega arith

  -- The last fragment: the slices are joined.
  pub add_fragment-last :
      (r : Reassembler) (set : FragmentSet) (seen : List ℕ) (left j : ℕ)
      → Waits r set seen (suc left)
      → elem j seen ≡ false
      → count ≤ 1024
      → j < count
      → length payload ≤ count * p
      → Distinct seen
      → Below count seen
      → suc (length seen) ≡ count
      → (add_fragment r
          (this_key flow_id sequence)
          set
          (fragment_header flow_id sequence count j)
          (slice p payload j)
          now).1
        ≡ ok (some payload)
  unfolding add_fragment finish
  add_fragment-last r set seen left j w new many below covers d b finished =
      rw (narrow j below many, narrow_count many)
        (ground (arith, w.held j, w.counted, v.size, v.inv.byte_limit, joined))
    where
      narrow : (i : ℕ) → i < count → count ≤ 1024 → i % 65536 ≡ i
      narrow i l m = omega arith

      narrow_count : count ≤ 1024 → count % 65536 ≡ count
      narrow_count m = omega arith

      none_before : (q : ℕ) → 0 * q ≡ 0
      none_before q = omega arith

      v : Waits (stored r set j) (with_part set j (slice p payload j)) (j ∷ seen) left
      v = stored-Waiting r set seen left j w new

      all_held :
          (k : ℕ)
          → k < count
          → lookup k (with_part set j (slice p payload j)).parts ≡ some (slice p payload k)
      all_held k l =
          v.held k
          ∙ ap (λ b. if b then some (slice p payload k) else none)
              (pigeonhole count (j ∷ seen) (new, d) (below, b) (omega arith) k l)

      joined : gather set.count 0 (with_part set j (slice p payload j)).parts ≡ some payload
      joined =
          ap (λ (n : ℕ). gather n 0 (with_part set j (slice p payload j)).parts) w.counted
          ∙ gather-slices p payload (with_part set j (slice p payload j)).parts count 0
              (omega (arith, covers, ap (λ (t : ℕ). t * p) (zero-add count)))
              (λ k lo hi. all_held k (omega arith))
          ∙ ap (λ (n : ℕ). some (drop n payload)) (none_before p)

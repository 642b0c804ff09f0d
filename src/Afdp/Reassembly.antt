-- ===== src/Afdp/Reassembly.antt =====
-- internal/afdp/protocol_reassembly.go: the bounded reassembler of datagram fragments, and the
-- splitting of a payload. A time is a number of nanoseconds and 0 is the zero `time.Time`;
-- `now.Sub(t) >= timeout` is `timeout ≤ now - t`, which agrees with the signed comparison because
-- `NewReassembler` wants a positive timeout. The mutex makes each method one step. `container/heap`
-- is the list of its entries in order of time: `Pop` takes the first, and `Push` puts an entry
-- behind those of the same time (which of these a heap pops first is not specified). The limits are
-- Go ints; 0 stands for every value that is not positive.
pub mod Accounting
pub mod Invariant
pub mod Limits
pub mod Replay
mod Tests
use asterferry.Base.{
  ℕ, zero, suc, ◌+◌, ◌-◌, ◌*◌, ◌/◌, Bool, true, false, not, ◌&&◌, ◌||◌, Option, none, some, List,
  [], ◌∷◌, ◌++◌, Result, ok, err, ◌>>=◌, Keyed, ◌↔◌, ◌≡◌, ltb, leb, is_some, length, take, drop,
  arith, if◌then◌else◌, ◌==◌, nat_keyed,
}
use asterferry.Base.Maps.{Map, lookup, insert, erase}
use asterferry.Afdp.Errors.{Error, malformed_frame, frame_too_large, transient, failure}
use asterferry.Afdp.Datagram.{
  DatagramHeader, decode_datagram, encode_datagram, datagram_header_bytes, max_datagram_payload,
  max_datagram_fragments,
}

pub record FlowKey : Type 0 where
  pub flow_id : ℕ
  pub sequence : ℕ

abbrev pub flow_beq : FlowKey → FlowKey → Bool
flow_beq a b = (a.flow_id == b.flow_id) && (a.sequence == b.sequence)

pub flow_beq_iff : (a b : FlowKey) → (flow_beq a b ≡ true) ↔ (a ≡ b)
flow_beq_iff a b = ground arith

instance abbrev pub flow_keyed : Keyed FlowKey
flow_keyed = record { same = flow_beq; same_iff = flow_beq_iff }

pub record FragmentSet : Type 0 where
  pub created : ℕ
  pub count : ℕ
  pub parts : Map ℕ (List ℕ)
  pub bytes : ℕ

pub record CompletedEntry : Type 0 where
  pub key : FlowKey
  pub at : ℕ

pub record Reassembler : Type 0 where
  pub flows : Map FlowKey FragmentSet
  pub completed : Map FlowKey ℕ
  pub completed_order : List CompletedEntry
  pub max_flows : ℕ
  pub max_bytes : ℕ
  pub max_payload : ℕ
  pub timeout : ℕ
  pub bytes : ℕ

unfoldable pub new_reassembler : ℕ → ℕ → ℕ → ℕ → Result Error Reassembler
new_reassembler max_flows max_bytes max_payload timeout =
    if max_flows == 0 || max_bytes == 0 || max_payload == 0 || timeout == 0
    then err (failure "reassembler limits must be positive")
    else (if ltb 1048576 max_flows
          || ltb 67108864 max_bytes
          || ltb max_datagram_payload max_payload
          || ltb 86400000000000 timeout
        then err (failure "reassembler limits exceed the supported maximum")
        else ok (record {
          flows = [];
          completed = [];
          completed_order = [];
          max_flows = max_flows;
          max_bytes = max_bytes;
          max_payload = max_payload;
          timeout = timeout;
          bytes = 0;
        }))

-- `heap.Push`.
unfoldable pub push_entry : CompletedEntry → List CompletedEntry → List CompletedEntry
push_entry e [] = e ∷ []
push_entry e (x ∷ xs) = if ltb e.at x.at then e ∷ x ∷ xs else x ∷ push_entry e xs

-- `completedAt, ok := r.completed[entry.key]; ok && completedAt.Equal(entry.at)`
unfoldable pub is_current : CompletedEntry → Map FlowKey ℕ → Bool
is_current e completed = elim (lookup e.key completed) [ none ↦ false | some t ↦ t == e.at ]

-- The first loop of `expireLocked`, over the flows that are left and the bytes still counted.
unfoldable pub expire_flows : ℕ → ℕ → Map FlowKey FragmentSet → ℕ → Map FlowKey FragmentSet × ℕ
expire_flows now timeout [] bytes = ([], bytes)
expire_flows now timeout ((key, set) ∷ flows) bytes =
    let over = leb timeout (now - set.created) in
    let rest = expire_flows now timeout flows (if over then bytes - set.bytes else bytes) in
    (if over then rest.0 else (key, set) ∷ rest.0, rest.1)

-- The second loop: entries leave the heap while they are too old.
unfoldable pub expire_completed :
    ℕ → ℕ → List CompletedEntry → Map FlowKey ℕ → Map FlowKey ℕ × List CompletedEntry
expire_completed now timeout [] completed = (completed, [])
expire_completed now timeout (e ∷ order) completed =
    let rest =
      expire_completed now timeout order
        (if is_current e completed then erase e.key completed else completed) in
    if ltb (now - e.at) timeout then (completed, e ∷ order) else rest

unfoldable pub expire_locked : Reassembler → ℕ → Reassembler
expire_locked r now =
    let live = expire_flows now r.timeout r.flows r.bytes in
    let kept = expire_completed now r.timeout r.completed_order r.completed in
    record r { flows = live.0; bytes = live.1; completed = kept.0; completed_order = kept.1 }

-- The loop that makes room in `completed`: it stops when an entry was deleted.
unfoldable pub make_room :
    ℕ → List CompletedEntry → Map FlowKey ℕ → Map FlowKey ℕ × List CompletedEntry
make_room limit [] completed = (completed, [])
make_room limit (e ∷ order) completed =
    let rest = make_room limit order completed in
    if ltb (length completed) limit
    then (completed, e ∷ order)
    else (if is_current e completed then (erase e.key completed, order) else rest)

-- A completed flow is remembered, so that a replay is refused.
unfoldable pub remember : Reassembler → FlowKey → ℕ → Reassembler
remember r key now =
    let room = make_room (r.max_flows * 2) r.completed_order r.completed in
    record r {
      completed = insert key now room.0;
      completed_order = push_entry (record { key = key; at = now }) room.1;
    }

-- The loop over `index < set.count`, with `n` rounds left.
unfoldable pub gather : ℕ → ℕ → Map ℕ (List ℕ) → Option (List ℕ)
gather zero index parts = some []
gather (suc n) index parts =
    let rest = gather n (suc index) parts in
    elim (lookup index parts) [
      | none ↦ none
      | some part ↦ elim rest [ none ↦ none | some tail ↦ some (part ++ tail) ]
    ]

-- What `Add` returns: `none` while fragments are missing, the payload when all have arrived.
abbrev pub AddResult : Type 0
AddResult = Result Error (Option (List ℕ))

-- `delete(r.flows, key); r.bytes -= set.bytes`
unfoldable pub drop_flow : Reassembler → FlowKey → FragmentSet → Reassembler
drop_flow r key set = record r { flows = erase key r.flows; bytes = r.bytes - set.bytes }

unfoldable pub finish : Reassembler → FlowKey → FragmentSet → ℕ → Reassembler × AddResult
finish r key set now =
    if not (length set.parts == set.count)
    then (r, ok none)
    else (elim (gather set.count 0 set.parts) [
      | none ↦ (r, ok none)
      | some result ↦ (remember (drop_flow r key set) key now, ok (some result))
    ])

abbrev pub with_part : FragmentSet → ℕ → List ℕ → FragmentSet
with_part set index payload = record set {
  parts = insert index payload set.parts;
  bytes = set.bytes + length payload;
}

unfoldable pub add_fragment :
    Reassembler → FlowKey → FragmentSet → DatagramHeader → List ℕ → ℕ → Reassembler × AddResult
add_fragment r key set header payload now =
    let set' = with_part set header.fragment_index payload in
    if not (set.count == header.fragment_count)
    then (drop_flow r key set, err malformed_frame)
    else (if is_some (lookup header.fragment_index set.parts)
        then (drop_flow r key set, err malformed_frame)
        else (if ltb r.max_bytes (r.bytes + length payload)
            then (drop_flow r key set, err (transient "reassembler byte limit reached"))
            else finish
                (record r { flows = insert key set' r.flows; bytes = r.bytes + length payload }) key
                set' now))

abbrev pub header_key : DatagramHeader → FlowKey
header_key header = record { flow_id = header.flow_id; sequence = header.sequence }

abbrev pub fresh_set : DatagramHeader → ℕ → FragmentSet
fresh_set header now = record {
  created = now;
  count = header.fragment_count;
  parts = [];
  bytes = 0;
}

unfoldable pub add_locked : Reassembler → DatagramHeader → List ℕ → ℕ → Reassembler × AddResult
add_locked r header payload now =
    let key = header_key header in
    elim (lookup key r.completed) [
      | some _ ↦ (r, err malformed_frame)
      | none ↦ elim (lookup key r.flows) [
        | some set ↦ add_fragment r key set header payload now
        | none ↦
            if leb r.max_flows (length r.flows)
            then (r, err (transient "reassembler flow limit reached"))
            else add_fragment (record r { flows = insert key (fresh_set header now) r.flows }) key
                (fresh_set header now) header payload now
      ]
    ]

-- `Add`. `clock` is the value of `time.Now()`, which stands in for a zero `now`.
unfoldable pub add : Reassembler → List ℕ → ℕ → ℕ → Reassembler × AddResult
add r bytes now clock =
    let at : ℕ = if now == 0 then clock else now in
    elim (decode_datagram bytes r.max_payload) [
      | err e ↦ (r, err e)
      | ok decoded ↦ add_locked (expire_locked r at) decoded.0 decoded.1 at
    ]

unfoldable pub in_flight : Reassembler → ℕ × ℕ
in_flight r = (length r.flows, r.bytes)

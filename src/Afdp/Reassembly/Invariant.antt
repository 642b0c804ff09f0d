-- ===== src/Afdp/Reassembly/Invariant.antt =====
-- The reassembler stays within its limits whatever datagrams arrive.
use asterferry.Base.{
  ℕ, ◌+◌, ◌*◌, ◌≤◌, ◌<◌, ◌≡◌, refl, none, some, List, [], ok, length, arith, leb, inl, inr,
  Bool-cases, Option-cases, Result-cases, ==-refl, nat_keyed,
}
use asterferry.Base.Maps.{
  Map, lookup, insert, lookup-insert, lookup-insert_self, length-insert-le, length-erase-le,
}
use asterferry.Base.Maps.Count.{
  Unique, total, total-erase, total-insert_new, total-insert_old, Unique-insert, Unique-erase,
  length-insert_new, length-insert_old, All-insert, All-erase, All-lookup,
}
use asterferry.Afdp.Datagram.{DatagramHeader, decode_datagram}
use asterferry.Afdp.Reassembly.{
  FlowKey, FragmentSet, CompletedEntry, Reassembler, flow_keyed, flow_beq_iff, new_reassembler,
  expire_flows, expire_locked, make_room, push_entry, remember, drop_flow, finish, with_part,
  add_fragment, header_key, fresh_set, add_locked, add,
}
use asterferry.Afdp.Reassembly.Accounting.{
  set_bytes, SetOk, Sets, expire_flows-total, expire_flows-le, expire_flows-length,
  expire_flows-Unique, expire_flows-Sets, Remembered, has_entry-push, expire_completed-Remembered,
  expire_completed-length, make_room-lt, make_room-Remembered,
}

pub record Inv (r : Reassembler) : Type 0 where
  pub distinct : Unique r.flows
  pub sets : Sets r.flows
  pub counted : r.bytes ≡ total set_bytes r.flows
  pub flow_limit : length r.flows ≤ r.max_flows
  pub byte_limit : r.bytes ≤ r.max_bytes
  pub positive : 0 < r.max_flows
  pub completed_limit : length r.completed ≤ r.max_flows * 2
  pub remembered : Remembered r.completed r.completed_order

abbrev pub empty : ℕ → ℕ → ℕ → ℕ → Reassembler
empty flows bytes payload timeout = record {
  flows = [];
  completed = [];
  completed_order = [];
  max_flows = flows;
  max_bytes = bytes;
  max_payload = payload;
  timeout = timeout;
  bytes = 0;
}

pub new-empty :
    (flows bytes payload timeout : ℕ) (r : Reassembler)
    → new_reassembler flows bytes payload timeout ≡ ok r
    → (r ≡ empty flows bytes payload timeout) × (0 < flows)
unfolding new_reassembler
new-empty flows bytes payload timeout r h = ground arith

pub new-Inv :
    (flows bytes payload timeout : ℕ) (r : Reassembler)
    → new_reassembler flows bytes payload timeout ≡ ok r
    → Inv r
new-Inv flows bytes payload timeout r h =
    let (e, pos) = new-empty flows bytes payload timeout r h in
    rw e (record {
      distinct = tt;
      sets = tt;
      counted = refl;
      flow_limit = omega arith;
      byte_limit = omega arith;
      positive = pos;
      completed_limit = omega arith;
      remembered = λ key t l. unfold lookup in cc;
    })

pub expire_locked-Inv : (r : Reassembler) (now : ℕ) → Inv r → Inv (expire_locked r now)
unfolding expire_locked
expire_locked-Inv r now v = record {
  distinct = expire_flows-Unique now r.timeout r.flows r.bytes v.distinct;
  sets = expire_flows-Sets now r.timeout r.flows r.bytes v.sets;
  counted = omega (arith, v.counted, total_lem);
  flow_limit = omega (arith, v.flow_limit, expire_flows-length now r.timeout r.flows r.bytes);
  byte_limit = omega (arith, v.byte_limit, expire_flows-le now r.timeout r.flows r.bytes);
  positive = v.positive;
  completed_limit = omega (
    arith,
    v.completed_limit,
    expire_completed-length now r.timeout r.completed_order r.completed,
  );
  remembered = expire_completed-Remembered now r.timeout r.completed_order r.completed v.remembered;
}
  where
    total_lem :
        (expire_flows now r.timeout r.flows r.bytes).1 + total set_bytes r.flows
        ≡ r.bytes + total set_bytes (expire_flows now r.timeout r.flows r.bytes).0
    total_lem = expire_flows-total now r.timeout r.flows r.bytes (omega (arith, v.counted))

pub drop_flow-Inv :
    (r : Reassembler) (key : FlowKey) (set : FragmentSet)
    → lookup key r.flows ≡ some set
    → Inv r
    → Inv (drop_flow r key set)
unfolding drop_flow
drop_flow-Inv r key set l v = record {
  distinct = Unique-erase key r.flows v.distinct;
  sets = All-erase _ key r.flows v.sets;
  counted = omega (arith, v.counted, total-erase set_bytes key set r.flows v.distinct l);
  flow_limit = omega (arith, v.flow_limit, length-erase-le key r.flows);
  byte_limit = omega (arith, v.byte_limit);
  positive = v.positive;
  completed_limit = v.completed_limit;
  remembered = v.remembered;
}

Remembered-insert :
    (key : FlowKey) (now : ℕ) (order : List CompletedEntry) (completed : Map FlowKey ℕ)
    → Remembered completed order
    → Remembered (insert key now completed) (push_entry (record { key = key; at = now }) order)
Remembered-insert key now order completed r k t l = ground (
  arith,
  has_entry-push k t (record { key = key; at = now }) order,
  lookup-insert key k now completed,
  r k t,
  flow_beq_iff key k,
  ==-refl t,
)

remember-Inv : (r : Reassembler) (key : FlowKey) (now : ℕ) → Inv r → Inv (remember r key now)
unfolding remember
remember-Inv r key now v = record {
  distinct = v.distinct;
  sets = v.sets;
  counted = v.counted;
  flow_limit = v.flow_limit;
  byte_limit = v.byte_limit;
  positive = v.positive;
  completed_limit = omega (
    arith,
    length-insert-le key now (make_room (r.max_flows * 2) r.completed_order r.completed).0,
    make_room-lt (r.max_flows * 2) r.completed_order r.completed (omega (arith, v.positive))
        v.completed_limit v.remembered,
  );
  remembered =
      Remembered-insert key now _ _
        (make_room-Remembered (r.max_flows * 2) r.completed_order r.completed v.remembered);
}

finish-Inv :
    (r : Reassembler) (key : FlowKey) (set : FragmentSet) (now : ℕ)
    → lookup key r.flows ≡ some set
    → Inv r
    → Inv (finish r key set now).0
unfolding finish
finish-Inv r key set now l v =
    let done = remember-Inv (drop_flow r key set) key now (drop_flow-Inv r key set l v) in
    ground arith

-- A fragment that is taken keeps the set's own count right.
with_part-SetOk :
    (set : FragmentSet) (index : ℕ) (payload : List ℕ)
    → lookup index set.parts ≡ none
    → SetOk set
    → SetOk (with_part set index payload)
with_part-SetOk set index payload l v = record {
  counted = omega (arith, v.counted, total-insert_new length index payload set.parts l);
  distinct = Unique-insert index payload set.parts v.distinct;
}

-- `set` is the set under `key`, and one more fragment fits.
pub store-Inv :
    (r : Reassembler) (key : FlowKey) (set : FragmentSet) (index : ℕ) (payload : List ℕ)
    → lookup key r.flows ≡ some set
    → lookup index set.parts ≡ none
    → r.bytes + length payload ≤ r.max_bytes
    → Inv r
    → Inv (record r {
      flows = insert key (with_part set index payload) r.flows;
      bytes = r.bytes + length payload;
    })
store-Inv r key set index payload l p fits v = record {
  distinct = Unique-insert key _ r.flows v.distinct;
  sets =
      All-insert _ key _ r.flows
        (with_part-SetOk set index payload p (All-lookup SetOk key set r.flows v.sets l)) v.sets;
  counted = omega (
    arith,
    v.counted,
    total-insert_old set_bytes key (with_part set index payload) set r.flows l,
  );
  flow_limit =
      omega
        (arith, v.flow_limit, length-insert_old key (with_part set index payload) set r.flows l);
  byte_limit = fits;
  positive = v.positive;
  completed_limit = v.completed_limit;
  remembered = v.remembered;
}

add_fragment-Inv :
    (r : Reassembler) (key : FlowKey) (set : FragmentSet) (h : DatagramHeader) (payload : List ℕ)
    (now : ℕ)
    → lookup key r.flows ≡ some set
    → Inv r
    → Inv (add_fragment r key set h payload now).0
unfolding add_fragment
add_fragment-Inv r key set h payload now l v = ground (
  arith,
  drop_flow-Inv r key set l v,
  λ (absent : lookup h.fragment_index set.parts ≡ none)
        (fits : r.bytes + length payload ≤ r.max_bytes).
      finish-Inv _ key _ now
        (lookup-insert_self key (with_part set h.fragment_index payload) r.flows)
        (store-Inv r key set h.fragment_index payload l absent fits v),
)

-- A new, empty set for a flow that has none.
pub open-Inv :
    (r : Reassembler) (key : FlowKey) (set : FragmentSet)
    → lookup key r.flows ≡ none
    → length r.flows < r.max_flows
    → SetOk set
    → set.bytes ≡ 0
    → Inv r
    → Inv (record r { flows = insert key set r.flows })
open-Inv r key set l room good none_yet v = record {
  distinct = Unique-insert key set r.flows v.distinct;
  sets = All-insert _ key set r.flows good v.sets;
  counted = omega (arith, v.counted, total-insert_new set_bytes key set r.flows l);
  flow_limit = omega (arith, length-insert_new key set r.flows l);
  byte_limit = v.byte_limit;
  positive = v.positive;
  completed_limit = v.completed_limit;
  remembered = v.remembered;
}

add_locked-Inv :
    (r : Reassembler) (h : DatagramHeader) (payload : List ℕ) (now : ℕ)
    → Inv r
    → Inv (add_locked r h payload now).0
unfolding add_locked
add_locked-Inv r h payload now v = elim (Option-cases (lookup (header_key h) r.completed)) [
  | inr (t, e) ↦ rw (e, add_locked) v
  | inl e ↦
      rw (e, add_locked)
        (elim (Option-cases (lookup (header_key h) r.flows)) [
          | inr (set, l) ↦ rw l (add_fragment-Inv r (header_key h) set h payload now l v)
          | inl l ↦ rw l (elim (Bool-cases (leb r.max_flows (length r.flows))) [
            | inl full ↦ rw full v
            | inr room ↦ rw room (
                add_fragment-Inv _ (header_key h) (fresh_set h now) h payload now
                  (lookup-insert_self (header_key h) (fresh_set h now) r.flows)
                  (open-Inv r (header_key h) (fresh_set h now) l (ground arith)
                    (record { counted = refl; distinct = tt }) refl v))
          ])
        ])
]

-- Every Add, refused or not, keeps the invariant: one set a flow, byte counts that are the sums of
-- the stored fragments, the limits, and a heap entry for every remembered flow.
pub add-Inv :
    (r : Reassembler) (bytes : List ℕ) (now clock : ℕ) → Inv r → Inv (add r bytes now clock).0
unfolding add
add-Inv r bytes now clock v = elim (Result-cases (decode_datagram bytes r.max_payload)) [
  | inr (e, q) ↦ rw (q, add) v
  | inl (d, q) ↦ rw (q, add) (add_locked-Inv _ d.0 d.1 _ (expire_locked-Inv r _ v))
]

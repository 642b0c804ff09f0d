-- ===== src/Afdp/Reassembly/Accounting.antt =====
-- What the reassembler counts: the bytes of the fragments it holds, and the completed flows that it
-- remembers.
use asterferry.Base.{
  ℕ, suc, ◌+◌, ◌-◌, ◌≤◌, ◌<◌, ◌≡◌, refl, Bool, true, false, none, some, List, [], ◌∷◌, length, All,
  arith, ◌||◌, ◌&&◌, ap, ltb, Bool-cases, inl, inr, ==-refl, ◌==◌, nat_keyed,
}
use asterferry.Base.Maps.{Map, lookup, erase, lookup-erase, length-erase-le}
use asterferry.Base.Maps.Count.{Unique, total, length-erase_old}
use asterferry.Afdp.Reassembly.{
  FlowKey, FragmentSet, CompletedEntry, flow_keyed, flow_beq_iff, push_entry, is_current,
  expire_flows, expire_completed, make_room,
}

-- The bytes of the fragments in a set.
abbrev pub part_bytes : Map ℕ (List ℕ) → ℕ
part_bytes = total length

abbrev pub set_bytes : FragmentSet → ℕ
set_bytes s = s.bytes

-- A set counts its own bytes.
pub record SetOk (s : FragmentSet) : Type 0 where
  pub counted : s.bytes ≡ part_bytes s.parts
  pub distinct : Unique s.parts

abbrev pub Sets : Map FlowKey FragmentSet → Type 0
Sets = All (λ (p : FlowKey × FragmentSet). SetOk p.1)

module _ (now timeout : ℕ) where
  -- Expiry takes the bytes of the flows that it drops, and no others.
  pub expire_flows-total :
      (flows : Map FlowKey FragmentSet) (bytes : ℕ)
      → total set_bytes flows ≤ bytes
      → (expire_flows now timeout flows bytes).1 + total set_bytes flows
        ≡ bytes + total set_bytes (expire_flows now timeout flows bytes).0
  unfolding expire_flows
  expire_flows-total [] bytes h = omega arith
  expire_flows-total ((k, s) ∷ flows) bytes h =
      ground (arith, expire_flows-total flows (bytes - s.bytes), expire_flows-total flows bytes)

  pub expire_flows-le :
      (flows : Map FlowKey FragmentSet) (bytes : ℕ)
      → (expire_flows now timeout flows bytes).1 ≤ bytes
  unfolding expire_flows
  expire_flows-le [] bytes = omega arith
  expire_flows-le ((k, s) ∷ flows) bytes =
      ground (arith, expire_flows-le flows (bytes - s.bytes), expire_flows-le flows bytes)

  pub expire_flows-length :
      (flows : Map FlowKey FragmentSet) (bytes : ℕ)
      → length (expire_flows now timeout flows bytes).0 ≤ length flows
  unfolding expire_flows
  expire_flows-length [] bytes = omega arith
  expire_flows-length ((k, s) ∷ flows) bytes =
      ground (arith, expire_flows-length flows (bytes - s.bytes), expire_flows-length flows bytes)

  pub expire_flows-absent :
      (key : FlowKey) (flows : Map FlowKey FragmentSet) (bytes : ℕ)
      → lookup key flows ≡ none
      → lookup key (expire_flows now timeout flows bytes).0 ≡ none
  unfolding expire_flows lookup
  expire_flows-absent key [] bytes h = refl
  expire_flows-absent key ((k, s) ∷ flows) bytes h =
      ground (
        arith,
        expire_flows-absent key flows (bytes - s.bytes),
        expire_flows-absent key flows bytes,
      )

  pub expire_flows-Unique :
      (flows : Map FlowKey FragmentSet) (bytes : ℕ)
      → Unique flows
      → Unique (expire_flows now timeout flows bytes).0
  unfolding expire_flows
  expire_flows-Unique [] bytes u = tt
  expire_flows-Unique ((k, s) ∷ flows) bytes u = ground (
    arith,
    expire_flows-Unique flows (bytes - s.bytes) u.1,
    expire_flows-Unique flows bytes u.1,
    expire_flows-absent k flows bytes u.0,
  )

  pub expire_flows-Sets :
      (flows : Map FlowKey FragmentSet) (bytes : ℕ)
      → Sets flows
      → Sets (expire_flows now timeout flows bytes).0
  unfolding expire_flows
  expire_flows-Sets [] bytes a = tt
  expire_flows-Sets ((k, s) ∷ flows) bytes a =
      ground
        (arith, expire_flows-Sets flows (bytes - s.bytes) a.1, expire_flows-Sets flows bytes a.1)

-- Every remembered flow has its entry in the heap.
abbrev pub is_entry : FlowKey → ℕ → CompletedEntry → Bool
is_entry key t e = (e.key == key) && (t == e.at)

abbrev pub has_entry : FlowKey → ℕ → List CompletedEntry → Bool
has_entry key t [] = false
has_entry key t (e ∷ es) = is_entry key t e || has_entry key t es

abbrev pub Remembered : Map FlowKey ℕ → List CompletedEntry → Type 0
Remembered completed order =
    (key : FlowKey) (t : ℕ) → lookup key completed ≡ some t → has_entry key t order ≡ true

-- The head of the heap may go if it is not current, or with the flow that it remembers.
Remembered-stale :
    (e : CompletedEntry) (order : List CompletedEntry) (completed : Map FlowKey ℕ)
    → Remembered completed (e ∷ order)
    → is_current e completed ≡ false
    → Remembered completed order
unfolding is_current
Remembered-stale e order completed r h key t l = ground (arith, r key t l, flow_beq_iff e.key key)

Remembered-erase :
    (e : CompletedEntry) (order : List CompletedEntry) (completed : Map FlowKey ℕ)
    → Remembered completed (e ∷ order)
    → Remembered (erase e.key completed) order
Remembered-erase e order completed r key t l =
    ground (arith, r key t, lookup-erase e.key key completed)

Remembered-empty : (completed : Map FlowKey ℕ) → Remembered completed [] → completed ≡ []
unfolding lookup
Remembered-empty [] r = refl
Remembered-empty ((k, t) ∷ m) r = ground (arith, r k t, ==-refl k)

pub expire_completed-Remembered :
    (now timeout : ℕ) (order : List CompletedEntry) (completed : Map FlowKey ℕ)
    → Remembered completed order
    → Remembered
        (expire_completed now timeout order completed).0
        (expire_completed now timeout order completed).1
unfolding expire_completed
expire_completed-Remembered now timeout [] completed r = r
expire_completed-Remembered now timeout (e ∷ order) completed r =
    elim (Bool-cases (ltb (now - e.at) timeout)) [
      | inl young ↦ rw young r
      | inr old ↦ rw old (elim (Bool-cases (is_current e completed)) [
        | inl current ↦ rw current (
            expire_completed-Remembered now timeout order (erase e.key completed)
              (Remembered-erase e order completed r))
        | inr stale ↦ rw stale (
            expire_completed-Remembered now timeout order completed
              (Remembered-stale e order completed r stale))
      ])
    ]

pub expire_completed-length :
    (now timeout : ℕ) (order : List CompletedEntry) (completed : Map FlowKey ℕ)
    → length (expire_completed now timeout order completed).0 ≤ length completed
unfolding expire_completed
expire_completed-length now timeout [] completed = omega arith
expire_completed-length now timeout (e ∷ order) completed = ground (
  arith,
  expire_completed-length now timeout order (erase e.key completed),
  expire_completed-length now timeout order completed,
  length-erase-le e.key completed,
)

current-length :
    (e : CompletedEntry) (completed : Map FlowKey ℕ)
    → is_current e completed ≡ true
    → suc (length (erase e.key completed)) ≤ length completed
unfolding is_current
current-length e completed h = ground (arith, length-erase_old e.key e.at completed)

-- Room is made for one more flow, if no more than `limit` are remembered.
pub make_room-lt :
    (limit : ℕ) (order : List CompletedEntry) (completed : Map FlowKey ℕ)
    → 0 < limit
    → length completed ≤ limit
    → Remembered completed order
    → length (make_room limit order completed).0 < limit
unfolding make_room
make_room-lt limit [] completed pos h r = omega (arith, ap length (Remembered-empty completed r))
make_room-lt limit (e ∷ order) completed pos h r = elim (Bool-cases (is_current e completed)) [
  | inl current ↦ ground (arith, current-length e completed current)
  | inr stale ↦
      ground (
        arith,
        make_room-lt limit order completed pos h (Remembered-stale e order completed r stale),
      )
]

pub make_room-Remembered :
    (limit : ℕ) (order : List CompletedEntry) (completed : Map FlowKey ℕ)
    → Remembered completed order
    → Remembered (make_room limit order completed).0 (make_room limit order completed).1
unfolding make_room
make_room-Remembered limit [] completed r = r
make_room-Remembered limit (e ∷ order) completed r =
    elim (Bool-cases (ltb (length completed) limit)) [
      | inl room ↦ rw room r
      | inr full ↦ rw full (elim (Bool-cases (is_current e completed)) [
        | inl current ↦ rw current (Remembered-erase e order completed r)
        | inr stale ↦ rw stale (
            make_room-Remembered limit order completed (Remembered-stale e order completed r stale))
      ])
    ]

pub has_entry-push :
    (key : FlowKey) (t : ℕ) (e : CompletedEntry) (order : List CompletedEntry)
    → has_entry key t (push_entry e order) ≡ (is_entry key t e || has_entry key t order)
unfolding push_entry
has_entry-push key t e [] = refl
has_entry-push key t e (x ∷ xs) = ground (arith, has_entry-push key t e xs)

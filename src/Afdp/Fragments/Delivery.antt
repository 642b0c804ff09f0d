-- ===== src/Afdp/Fragments/Delivery.antt =====
-- The fragments of one payload, delivered in any order, give the payload back.
use asterferry.Base.{
  ℕ, zero, suc, ◌+◌, ◌-◌, ◌*◌, ◌%◌, ◌≤◌, ◌<◌, ◌≡◌, refl, ap, sym, subst, ◌∙◌, false, none, some,
  List, [], ◌∷◌, map, ok, length, get_or, All, arith, nat_keyed, nat_beq,
}
use asterferry.Base.Maps.{lookup, insert, lookup-insert_self}
use asterferry.Base.Distinct.{elem, Distinct, Below}
use asterferry.Afdp.Datagram.{normalize_datagram_payload_limit, decode_datagram}
use asterferry.Afdp.Reassembly.{
  FlowKey, FragmentSet, Reassembler, flow_keyed, expire_locked, AddResult, add_fragment, fresh_set,
  add_locked, add, with_part,
}
use asterferry.Afdp.Reassembly.Accounting.{
  expire_flows-le, expire_flows-absent, expire_flows-length,
}
use asterferry.Afdp.Reassembly.Invariant.{Inv, expire_locked-Inv, open-Inv}
use asterferry.Afdp.Fragments.{slice, fragment_header, fragment_count_of, fragments}
use asterferry.Afdp.Fragments.Slices.{fragment_count-covers}
use asterferry.Afdp.Fragments.Frames.{IsFrame, fragments-frames, decode-IsFrame}
use asterferry.Afdp.Fragments.Arrival.{
  this_key, Waits, stored, expire_locked-Waiting, stored-Waiting, add_fragment-pending,
  add_fragment-last, expire_completed-absent,
}

-- Datagrams delivered one by one, with what each `Add` returned.
pub deliver : Reassembler → List (List ℕ) → ℕ → ℕ → Reassembler × List AddResult
deliver r [] now clock = (r, [])
deliver r (frame ∷ frames) now clock =
    let (r', result) = add r frame now clock in
    let (r'', results) = deliver r' frames now clock in (r'', result ∷ results)

pub pending_then : ℕ → List ℕ → List AddResult
pending_then zero payload = ok (some payload) ∷ []
pending_then (suc n) payload = ok none ∷ pending_then n payload

-- No fragment of the flow has arrived, and there is room for it and for `left` fragments.
pub record Ready (flow_id sequence p left : ℕ) (r : Reassembler) : Type 0 where
  pub inv : Inv r
  pub absent : lookup (this_key flow_id sequence) r.flows ≡ none
  pub fresh : lookup (this_key flow_id sequence) r.completed ≡ none
  pub room : length r.flows < r.max_flows
  pub patient : 0 < r.timeout
  pub space : r.bytes + left * p ≤ r.max_bytes
  pub accepts : p ≤ normalize_datagram_payload_limit r.max_payload

expire_locked-Ready :
    (flow_id sequence p left now : ℕ) (r : Reassembler)
    → Ready flow_id sequence p left r
    → Ready flow_id sequence p left (expire_locked r now)
unfolding expire_locked
expire_locked-Ready f s p left now r y = record {
  inv = unfold expire_locked in expire_locked-Inv r now y.inv;
  absent = expire_flows-absent now r.timeout (this_key f s) r.flows r.bytes y.absent;
  fresh =
      expire_completed-absent now r.timeout (this_key f s) r.completed_order r.completed y.fresh;
  room = omega (arith, y.room, expire_flows-length now r.timeout r.flows r.bytes);
  patient = y.patient;
  space = omega (arith, y.space, expire_flows-le now r.timeout r.flows r.bytes);
  accepts = y.accepts;
}

-- The orders in which fragments may arrive behind those in `seen`.
abbrev Apart : List ℕ → List ℕ → Type 0
Apart [] seen = Unit
Apart (j ∷ js) seen = (elem j seen ≡ false) × Apart js (j ∷ seen)

elem-All : (j : ℕ) (js : List ℕ) → elem j js ≡ false → All (λ k. nat_beq j k ≡ false) js
elem-All j [] h = tt
elem-All j (k ∷ js) h = (ground arith, elem-All j js (ground arith))

Apart-skip :
    (j : ℕ) (seen js : List ℕ)
    → All (λ k. nat_beq j k ≡ false) js
    → All (λ k. elem k seen ≡ false) js
    → All (λ k. elem k (j ∷ seen) ≡ false) js
Apart-skip j seen [] a b = tt
Apart-skip j seen (k ∷ js) a b = (ground (arith, a.0, b.0), Apart-skip j seen js a.1 b.1)

Apart-Distinct :
    (js seen : List ℕ) → Distinct js → All (λ k. elem k seen ≡ false) js → Apart js seen
Apart-Distinct [] seen d a = tt
Apart-Distinct (j ∷ js) seen d a =
    (a.0, Apart-Distinct js (j ∷ seen) d.1 (Apart-skip j seen js (elem-All j js d.0) a.1))

All-unseen : (js : List ℕ) → All (λ k. elem k [] ≡ false) js
All-unseen [] = tt
All-unseen (j ∷ js) = (refl, All-unseen js)

module _ (flow_id sequence count p now clock : ℕ) (payload : List ℕ) (frame : ℕ → List ℕ)
    (flow_width : flow_id < 18446744073709551616) (sequence_width : sequence < 4294967296)
    (many : count ≤ 1024) (covers : length payload ≤ count * p) (positive_now : 0 < now)
    (framed : (j : ℕ) → j < count → IsFrame flow_id sequence count p payload j (frame j)) where
  abbrev key : FlowKey
  key = this_key flow_id sequence

  abbrev W : Reassembler → FragmentSet → List ℕ → ℕ → Type 0
  W = Waits flow_id sequence count p now payload

  decoded :
      (j m : ℕ)
      → j < count
      → p ≤ normalize_datagram_payload_limit m
      → decode_datagram (frame j) m
        ≡ ok (fragment_header flow_id sequence count j, slice p payload j)
  decoded j m l accepts =
      decode-IsFrame flow_id sequence count p now payload flow_width sequence_width many covers
        positive_now j m (frame j) accepts (framed j l)

  -- A later fragment goes to the set of its flow.
  add-Waiting :
      (r : Reassembler) (set : FragmentSet) (seen : List ℕ) (left j : ℕ)
      → W r set seen left
      → j < count
      → add r (frame j) now clock
        ≡ add_fragment
            (expire_locked r now)
            key
            set
            (fragment_header flow_id sequence count j)
            (slice p payload j)
            now
  unfolding add add_locked
  add-Waiting r set seen left j w l =
      let w' = expire_locked-Waiting flow_id sequence count p now payload r set seen left w in
      ground (arith, decoded j r.max_payload l w.accepts, w'.found, w'.fresh)

  abbrev opened : Reassembler → ℕ → Reassembler
  opened r j = record (expire_locked r now) {
    flows =
        insert key (fresh_set (fragment_header flow_id sequence count j) now)
          (expire_locked r now).flows;
  }

  opened-Waiting :
      (r : Reassembler) (left j : ℕ)
      → Ready flow_id sequence p left r
      → W (opened r j) (fresh_set (fragment_header flow_id sequence count j) now) [] left
  opened-Waiting r left j y =
      let e = expire_locked-Ready flow_id sequence p left now r y in
      record {
        inv =
            open-Inv (expire_locked r now) key
              (fresh_set (fragment_header flow_id sequence count j) now) e.absent e.room
              (record { counted = refl; distinct = tt }) refl e.inv;
        found = lookup-insert_self key _ (expire_locked r now).flows;
        fresh = e.fresh;
        created = refl;
        counted = narrow many;
        held = λ k. unfold lookup in refl;
        size = refl;
        patient = e.patient;
        space = e.space;
        accepts = e.accepts;
      }
    where
      narrow : count ≤ 1024 → count % 65536 ≡ count
      narrow m = omega arith

  -- The first fragment opens a set.
  add-Ready :
      (r : Reassembler) (left j : ℕ)
      → Ready flow_id sequence p left r
      → j < count
      → add r (frame j) now clock
        ≡ add_fragment
            (opened r j)
            key
            (fresh_set (fragment_header flow_id sequence count j) now)
            (fragment_header flow_id sequence count j)
            (slice p payload j)
            now
  unfolding add add_locked
  add-Ready r left j y l =
      let e = expire_locked-Ready flow_id sequence p left now r y in
      ground (arith, decoded j r.max_payload l y.accepts, e.absent, e.fresh, e.room)

  -- The fragment `j` goes to a set that holds `seen`, and those in `js` come behind it.
  deliver-from :
      (js seen : List ℕ) (j : ℕ) (r s : Reassembler) (set : FragmentSet)
      → add r (frame j) now clock
        ≡ add_fragment s key set (fragment_header flow_id sequence count j) (slice p payload j) now
      → W s set seen (suc (length js))
      → Apart (j ∷ js) seen
      → Below count (j ∷ js)
      → Distinct seen
      → Below count seen
      → length seen + suc (length js) ≡ count
      → (deliver r (map frame (j ∷ js)) now clock).1 ≡ pending_then (length js) payload
  unfolding deliver pending_then
  deliver-from [] seen j r s set q w a b d bs n =
      ap (λ (x : Reassembler × AddResult). x.1 ∷ []) q
      ∙ ap (λ (x : AddResult). x ∷ [])
          (add_fragment-last flow_id sequence count p now payload s set seen 0 j w a.0 many b.0
            covers d bs (omega arith))
  deliver-from (k ∷ js) seen j r s set q w a b d bs n =
      ap (λ (x : Reassembler × AddResult). x.1 ∷ (deliver x.0 (map frame (k ∷ js)) now clock).1)
        (q
          ∙ add_fragment-pending flow_id sequence count p now payload s set seen (suc (length js)) j
              w a.0 many b.0 (omega arith))
      ∙ ap (◌∷◌ (ok none)) (
          deliver-from js (j ∷ seen) k later (expire_locked later now) set'
            (add-Waiting later set' (j ∷ seen) (suc (length js)) k w' b.1.0)
            (expire_locked-Waiting flow_id sequence count p now payload later set' (j ∷ seen)
              (suc (length js)) w')
            a.1 b.1 (a.0, d) (b.0, bs) (omega arith))
    where
      later : Reassembler
      later = stored flow_id sequence count p now payload s set j

      set' : FragmentSet
      set' = with_part set j (slice p payload j)

      w' : W later set' (j ∷ seen) (suc (length js))
      w' = stored-Waiting flow_id sequence count p now payload s set seen (suc (length js)) j w a.0

  deliver-Ready :
      (js : List ℕ) (j : ℕ) (r : Reassembler)
      → Ready flow_id sequence p (suc (length js)) r
      → Distinct (j ∷ js)
      → Below count (j ∷ js)
      → suc (length js) ≡ count
      → (deliver r (map frame (j ∷ js)) now clock).1 ≡ pending_then (length js) payload
  deliver-Ready js j r y d b n =
      deliver-from js [] j r (opened r j) _ (add-Ready r (suc (length js)) j y b.0)
        (opened-Waiting r (suc (length js)) j y)
        (Apart-Distinct (j ∷ js) [] d (All-unseen (j ∷ js))) b tt tt (omega arith)

-- A payload that Fragments splits, all of whose datagrams are added at one and the same positive
-- time, in any order, is returned by the last Add, and every earlier Add returns nothing and no
-- error. The flow id has 64 bits and the sequence 32. The reassembler is well-formed and has a
-- positive timeout, holds no fragment of that flow and sequence and does not remember them as
-- completed, has fewer flows than its limit, room for as many bytes as the number of datagrams times
-- the payload of a full one, and a payload limit that a full one meets.
pub deliver-fragments :
    (flow_id sequence mtu now clock : ℕ) (payload : List ℕ) (frames : List (List ℕ))
    (order : List ℕ) (r : Reassembler)
    → fragments flow_id sequence payload mtu ≡ ok frames
    → flow_id < 18446744073709551616
    → sequence < 4294967296
    → 0 < now
    → Ready flow_id sequence (mtu - 24) (length frames) r
    → Distinct order
    → Below (length frames) order
    → length order ≡ length frames
    → (deliver r (map (λ j. get_or frames j []) order) now clock).1
      ≡ pending_then (length frames - 1) payload
deliver-fragments f s mtu now clock payload frames [] r h fw sw pos y d b n =
    let (size, wide, many, framed) = fragments-frames f s payload mtu frames h in
    absurd (omega (arith, fragment_count-covers (length payload) (mtu - 24) wide, size))
deliver-fragments f s mtu now clock payload frames (j ∷ js) r h fw sw pos y d b n =
    let (size, wide, many, framed) = fragments-frames f s payload mtu frames h in
    deliver-Ready f s (length frames) (mtu - 24) now clock payload (λ i. get_or frames i []) fw sw
      many (covered size wide) pos framed js j r
      (subst (λ (k : ℕ). Ready f s (mtu - 24) k r) (sym n) y) d b n
    ∙ ap (λ (k : ℕ). pending_then k payload) (omega arith)
  where
    covered :
        length frames ≡ fragment_count_of (length payload) (mtu - 24)
        → 0 < mtu - 24
        → length payload ≤ length frames * (mtu - 24)
    covered size wide = rw size (fragment_count-covers (length payload) (mtu - 24) wide).0

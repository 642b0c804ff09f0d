-- ===== src/Afdp/Reassembly/Tests.antt =====
-- Tests and instances for the reassembler.
use asterferry.Base.{ℕ, ◌*◌, ◌≤◌, ◌≡◌, refl, some, List, [], ◌∷◌, ok, err, length, arith}
use asterferry.Base.Maps.{lookup, insert, erase}
use asterferry.Afdp.Errors.{malformed_frame}
use asterferry.Afdp.Datagram.{
  DatagramHeader, decode_datagram, validate_datagram_header, normalize_datagram_payload_limit,
}
use asterferry.Afdp.Reassembly.{
  Reassembler, new_reassembler, push_entry, is_current, expire_flows, expire_completed,
  expire_locked, make_room, remember, gather, drop_flow, finish, add_fragment, add_locked, add,
  in_flight,
}
use asterferry.Afdp.Reassembly.Invariant.{Inv, empty, new-Inv, add-Inv}
use asterferry.Afdp.Reassembly.Limits.{Call, adds, expires, run, run_bounds}
use asterferry.Afdp.Reassembly.Replay.{add_replayed}

abbrev small : Reassembler
small = empty 2 100 1000 50

small_new : new_reassembler 2 100 1000 50 ≡ ok small
unfolding new_reassembler
small_new = refl

-- A datagram that is a payload of its own, flow 5, sequence 7.
abbrev whole : List ℕ
whole =
    1 ∷ 2 ∷ 0 ∷ 24 ∷ 0 ∷ 0 ∷ 0 ∷ 0 ∷ 0 ∷ 0 ∷ 0 ∷ 5 ∷ 0 ∷ 0 ∷ 0 ∷ 7 ∷ 0 ∷ 0 ∷ 0 ∷ 1 ∷ 0 ∷ 1 ∷ 0 ∷ 0
    ∷ 9 ∷ []

abbrev whole_header : DatagramHeader
whole_header = record {
  flags = 2;
  flow_id = 5;
  sequence = 7;
  fragment_index = 0;
  fragment_count = 1;
}

abbrev received : Reassembler
received = record small {
  completed = (record { flow_id = 5; sequence = 7 }, 10) ∷ [];
  completed_order = record { key = record { flow_id = 5; sequence = 7 }; at = 10 } ∷ [];
}

first_add : add small whole 10 0 ≡ (received, ok (some (9 ∷ [])))
unfolding add add_locked add_fragment finish gather drop_flow remember make_room push_entry
    expire_locked expire_flows expire_completed is_current lookup insert erase decode_datagram
    validate_datagram_header normalize_datagram_payload_limit
first_add = refl

whole_decodes : decode_datagram whole 1000 ≡ ok (whole_header, 9 ∷ [])
unfolding decode_datagram validate_datagram_header normalize_datagram_payload_limit
whole_decodes = refl

add_replayed_example : add received whole 40 0 ≡ (expire_locked received 40, err malformed_frame)
add_replayed_example =
    add_replayed small received whole whole (9 ∷ []) (9 ∷ []) (9 ∷ []) whole_header whole_header 10
      40 0 0 first_add whole_decodes whole_decodes refl (omega arith) (omega arith) (omega arith)

abbrev traffic : List Call
traffic = adds whole 10 0 ∷ adds whole 20 0 ∷ expires 100 ∷ []

run_bounds_example :
    let s = run small traffic in
    ((in_flight s).0 ≤ 2) × ((in_flight s).1 ≤ 100) × (length s.completed ≤ 2 * 2)
run_bounds_example = run_bounds 2 100 1000 50 small traffic small_new

add-Inv_example : Inv (add small whole 10 0).0
add-Inv_example = add-Inv small whole 10 0 (new-Inv 2 100 1000 50 small small_new)

-- ===== src/Afdp/Fragments/Tests.antt =====
-- Tests and instances for the splitting of payloads.
use asterferry.Base.{ℕ, ◌≡◌, refl, List, [], ◌∷◌, map, ok, err, get_or, arith}
use asterferry.Base.Maps.{lookup}
use asterferry.Afdp.Errors.{malformed_frame}
use asterferry.Afdp.Datagram.{
  encode_datagram, frame_bytes, validate_datagram_header, normalize_datagram_payload_limit,
}
use asterferry.Afdp.Reassembly.{new_reassembler}
use asterferry.Afdp.Reassembly.Invariant.{empty, new-Inv}
use asterferry.Afdp.Fragments.{slice, fragments, fragments_from, fragment_count_of}
use asterferry.Afdp.Fragments.Delivery.{Ready, deliver, pending_then, deliver-fragments}

-- Three bytes in datagrams of at most two.
abbrev two_frames : List (List ℕ)
two_frames =
    (1 ∷ 1 ∷ 0 ∷ 24 ∷ 0 ∷ 0 ∷ 0 ∷ 0 ∷ 0 ∷ 0 ∷ 0 ∷ 5 ∷ 0 ∷ 0 ∷ 0 ∷ 7 ∷ 0 ∷ 0 ∷ 0 ∷ 2 ∷ 0 ∷ 2 ∷ 0 ∷ 0
      ∷ 11 ∷ 12 ∷ [])
    ∷ (1 ∷ 3 ∷ 0 ∷ 24 ∷ 0 ∷ 0 ∷ 0 ∷ 0 ∷ 0 ∷ 0 ∷ 0 ∷ 5 ∷ 0 ∷ 0 ∷ 0 ∷ 7 ∷ 0 ∷ 1 ∷ 0 ∷ 2 ∷ 0 ∷ 1 ∷ 0
        ∷ 0 ∷ 13 ∷ [])
    ∷ []

two_fragments : fragments 5 7 (11 ∷ 12 ∷ 13 ∷ []) 26 ≡ ok two_frames
unfolding fragments fragments_from fragment_count_of slice encode_datagram frame_bytes
    validate_datagram_header normalize_datagram_payload_limit
two_fragments = refl

no_flow : fragments 0 7 (11 ∷ 12 ∷ 13 ∷ []) 26 ≡ err malformed_frame
unfolding fragments
no_flow = refl

small_Ready : Ready 5 7 2 2 (empty 2 100 1000 50)
unfolding lookup normalize_datagram_payload_limit
small_Ready = record {
  inv = new-Inv 2 100 1000 50 (empty 2 100 1000 50) (unfold new_reassembler in refl);
  absent = refl;
  fresh = refl;
  room = omega arith;
  patient = omega arith;
  space = omega arith;
  accepts = omega arith;
}

deliver-fragments_example :
    (deliver (empty 2 100 1000 50) (map (λ j. get_or two_frames j []) (1 ∷ 0 ∷ [])) 10 0).1
    ≡ pending_then 1 (11 ∷ 12 ∷ 13 ∷ [])
deliver-fragments_example =
    deliver-fragments 5 7 26 10 0 (11 ∷ 12 ∷ 13 ∷ []) two_frames (1 ∷ 0 ∷ []) (empty 2 100 1000 50)
      two_fragments (omega arith) (omega arith) (omega arith) small_Ready (refl, (refl, tt))
      (omega arith) refl

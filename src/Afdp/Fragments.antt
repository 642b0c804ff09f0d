-- ===== src/Afdp/Fragments.antt =====
-- internal/afdp/protocol_reassembly.go, `Fragments`: one payload as bounded datagrams. The two flag
-- bits are distinct, so `|=` is `+`.
pub mod Slices
pub mod Frames
pub mod Arrival
pub mod Delivery
mod Tests
use asterferry.Base.{
  ℕ, zero, suc, ◌+◌, ◌-◌, ◌*◌, ◌/◌, ◌%◌, List, [], ◌∷◌, Result, ok, err, ◌>>=◌, ltb, leb, length,
  take, drop, if◌then◌else◌, ◌==◌, nat_keyed,
}
use asterferry.Afdp.Errors.{Error, malformed_frame, frame_too_large, failure}
use asterferry.Afdp.Datagram.{
  DatagramHeader, encode_datagram, datagram_header_bytes, max_datagram_fragments,
}

abbrev pub fragment_flags : ℕ → ℕ → ℕ
fragment_flags count index = (if ltb 1 count then 1 else 0) + (if index == count - 1 then 2 else 0)

-- `payload[start:end]`, with `end` cut off at the length.
unfoldable pub slice : ℕ → List ℕ → ℕ → List ℕ
slice part_size payload index =
    let start = index * part_size in
    let end = start + part_size in
    take ((if ltb (length payload) end then length payload else end) - start) (drop start payload)

abbrev pub fragment_header : ℕ → ℕ → ℕ → ℕ → DatagramHeader
fragment_header flow_id sequence count index = record {
  flags = fragment_flags count index;
  flow_id = flow_id;
  sequence = sequence;
  fragment_index = index % 65536;
  fragment_count = count % 65536;
}

-- The loop over `index < count`, with `n` rounds left.
unfoldable pub fragments_from : ℕ → ℕ → List ℕ → ℕ → ℕ → ℕ → ℕ → Result Error (List (List ℕ))
fragments_from flow_id sequence payload part_size count zero index = ok []
fragments_from flow_id sequence payload part_size count (suc n) index = do
  frame ←
      encode_datagram (fragment_header flow_id sequence count index) (slice part_size payload index)
        part_size
  rest ← fragments_from flow_id sequence payload part_size count n (suc index)
  ok (frame ∷ rest)

unfoldable pub fragment_count_of : ℕ → ℕ → ℕ
fragment_count_of size part_size =
    let count = (size + part_size - 1) / part_size in if count == 0 then 1 else count

unfoldable pub fragments : ℕ → ℕ → List ℕ → ℕ → Result Error (List (List ℕ))
fragments flow_id sequence payload mtu =
    let part_size = mtu - datagram_header_bytes in
    let count = fragment_count_of (length payload) part_size in
    if flow_id == 0
    then err malformed_frame
    else (if leb mtu datagram_header_bytes
        then err (failure "datagram MTU is too small")
        else (if ltb max_datagram_fragments count
            then err frame_too_large
            else fragments_from flow_id sequence payload part_size count count 0))

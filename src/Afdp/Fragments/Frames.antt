-- ===== src/Afdp/Fragments/Frames.antt =====
-- The datagrams that `Fragments` makes: their number, and what each decodes to.
use native.Mathlib.Nat.{zero-add, add-zero}
use asterferry.Base.{
  ℕ, zero, suc, ◌+◌, ◌-◌, ◌*◌, ◌≤◌, ◌<◌, ◌≡◌, ap, sym, subst, List, [], ◌∷◌, ok, length, get_or,
  arith, nat_keyed, >>=-inverse,
}
use asterferry.Afdp.Datagram.{
  InWidth, normalize_datagram_payload_limit, encode_datagram, decode_datagram,
}
use asterferry.Afdp.Datagram.Codec.{encode-parts, decode-frame}
use asterferry.Afdp.Reassembly.{flow_keyed}
use asterferry.Afdp.Fragments.{slice, fragment_header, fragments_from, fragment_count_of, fragments}
use asterferry.Afdp.Fragments.Slices.{length-slice-le}

-- The frame of one index is the encoding of its header and slice.
abbrev pub IsFrame : ℕ → ℕ → ℕ → ℕ → List ℕ → ℕ → List ℕ → Type 0
IsFrame flow_id sequence count p payload j frame =
    encode_datagram (fragment_header flow_id sequence count j) (slice p payload j) p ≡ ok frame

frames_at :
    (flow_id sequence count p : ℕ) (payload : List ℕ) (n index : ℕ) (frame : List ℕ)
    (rest : List (List ℕ))
    → IsFrame flow_id sequence count p payload index frame
    → ((j : ℕ)
        → j < n
        → IsFrame flow_id sequence count p payload (suc index + j) (get_or rest j []))
    → (j : ℕ) → j < suc n
    → IsFrame flow_id sequence count p payload (index + j) (get_or (frame ∷ rest) j [])
frames_at f s count p xs n index frame rest here later zero l =
    subst (λ (i : ℕ). IsFrame f s count p xs i frame) (sym (add-zero index)) here
frames_at f s count p xs n index frame rest here later (suc j) l =
    subst (λ (i : ℕ). IsFrame f s count p xs i (get_or rest j [])) (shift index j)
      (later j (omega arith))
  where
    shift : (a b : ℕ) → suc a + b ≡ a + suc b
    shift a b = omega arith

fragments_from-frames :
    (flow_id sequence : ℕ) (payload : List ℕ) (p count n index : ℕ) (frames : List (List ℕ))
    → fragments_from flow_id sequence payload p count n index ≡ ok frames
    → (length frames ≡ n)
      × ((j : ℕ)
          → j < n
          → IsFrame flow_id sequence count p payload (index + j) (get_or frames j []))
unfolding fragments_from
fragments_from-frames f s xs p count zero index frames h =
    (ground arith, λ j l. absurd (omega arith))
fragments_from-frames f s xs p count (suc n) index frames h =
    let (frame, more, here) =
      >>=-inverse (encode_datagram (fragment_header f s count index) (slice p xs index) p) _ h in
    let (rest, done, there) = >>=-inverse (fragments_from f s xs p count n (suc index)) _ more in
    let (len, later) = fragments_from-frames f s xs p count n (suc index) rest there in
    let e : frames ≡ frame ∷ rest = cc in
    rw e (ap suc len, frames_at f s count p xs n index frame rest here later)

fragments-parts :
    (flow_id sequence : ℕ) (payload : List ℕ) (mtu : ℕ) (frames : List (List ℕ))
    → fragments flow_id sequence payload mtu ≡ ok frames
    → let count = fragment_count_of (length payload) (mtu - 24) in
      (0 < mtu - 24)
      × (count ≤ 1024)
      × (fragments_from flow_id sequence payload (mtu - 24) count count 0 ≡ ok frames)
unfolding fragments
fragments-parts f s xs mtu frames h = ground arith

pub fragments-frames :
    (flow_id sequence : ℕ) (payload : List ℕ) (mtu : ℕ) (frames : List (List ℕ))
    → fragments flow_id sequence payload mtu ≡ ok frames
    → let p = mtu - 24 in
      let count = length frames in
      (count ≡ fragment_count_of (length payload) p)
      × (0 < p)
      × (count ≤ 1024)
      × ((j : ℕ) → j < count → IsFrame flow_id sequence count p payload j (get_or frames j []))
fragments-frames f s xs mtu frames h =
    let (pos, many, loop) = fragments-parts f s xs mtu frames h in
    let count = fragment_count_of (length xs) (mtu - 24) in
    let (len, at) = fragments_from-frames f s xs (mtu - 24) count count 0 frames loop in
    (
      len,
      pos,
      omega (arith, len, many),
      λ j l. rw len (
          subst (λ (i : ℕ). IsFrame f s count (mtu - 24) xs i (get_or frames j [])) (zero-add j)
            (at j (omega (arith, len)))),
    )

-- What the sections below assume of one flow and payload.
module _ (flow_id sequence count p now : ℕ) (payload : List ℕ)
    (flow_width : flow_id < 18446744073709551616) (sequence_width : sequence < 4294967296)
    (many : count ≤ 1024) (covers : length payload ≤ count * p) (positive_now : 0 < now) where
  fragment-InWidth : (j : ℕ) → InWidth (fragment_header flow_id sequence count j)
  fragment-InWidth j = record {
    flags_width = ground arith;
    flow_width = flow_width;
    sequence_width = sequence_width;
    index_width = omega arith;
    count_width = omega arith;
  }

  pub decode-IsFrame :
      (j m : ℕ) (frame : List ℕ)
      → p ≤ normalize_datagram_payload_limit m
      → IsFrame flow_id sequence count p payload j frame
      → decode_datagram frame m ≡ ok (fragment_header flow_id sequence count j, slice p payload j)
  decode-IsFrame j m frame accepts f =
      let (valid, fits, e) = encode-parts _ _ frame p f in
      rw e (
        decode-frame _ _ m (fragment-InWidth j) valid
          (omega (arith, accepts, length-slice-le p j payload)))

-- ===== src/Afdp/Session/Handshake.antt =====
-- The two ends of a handshake (internal/afdp/session.go) come to the same session.
use asterferry.Base.{
  ℕ, ◌+◌, refl, Result-cases, ◌≤◌, ◌<◌, true, ◌≡◌, sym, ap, ◌∙◌, Option, none, some, List, [], ◌∷◌,
  String, ok, Option-cases, inl, inr, length, ==-refl, nat_keyed, string_keyed, arith,
}
use asterferry.Base.Sets.{member, discard, NoRepeat, member-discard}
use asterferry.Afdp.Control.{AssignmentView, SessionHello, SessionAccept, authorize_session}
use asterferry.Afdp.Control.Admission.{Admitted, authorize_session-Admitted}
use asterferry.Afdp.Identity.{Peer, authorize_peer_identity}
use asterferry.Afdp.Control.Sorted.{sort_strings-again}
use asterferry.Afdp.Control.Accept.{
  wire_accept, write_session_accept, read_session_accept-write_session_accept,
}
use asterferry.Afdp.Control.Capabilities.{
  canonical_capabilities, canonical_service_ids, intersect, member-sort_strings,
  negotiate_capabilities, negotiate_capabilities-common, offered,
}
use asterferry.Afdp.Session.{
  limits, check_expected_peer, accepted, SessionOptions, Session, client_session, client_state,
  resolve, accept_of, server_session,
}

discard-length-le : (key : String) (ys : List String) → length (discard key ys) ≤ length ys
unfolding discard
discard-length-le key [] = omega arith
discard-length-le key (y ∷ ys) = ground (arith, discard-length-le key ys)

discard-length :
    (key : String) (ys : List String) → member key ys ≡ true → length (discard key ys) < length ys
unfolding member discard
discard-length key [] h = absurd (cc)
discard-length key (y ∷ ys) h = ground (arith, discard-length key ys, discard-length-le key ys)

-- A list without repetition whose elements are all in another is not longer.
subset-length-le :
    (xs ys : List String)
    → NoRepeat xs
    → ((key : String) → member key xs ≡ true → member key ys ≡ true)
    → length xs ≤ length ys
unfolding member
subset-length-le [] ys n h = omega arith
subset-length-le (x ∷ xs) ys n h =
    let here = h x (ground (arith, ==-refl x)) in
    let rest = subset-length-le xs (discard x ys) n.1 (λ key k.
      rw (member-discard x key ys)
        (ground (arith, h key (ground arith), string_keyed.same_iff x key))) in
    omega (arith, rest, discard-length x ys here)

member-offered :
    (key : String) (xs : List String) → member key xs ≡ true → member key (offered xs) ≡ true
unfolding offered member
member-offered key [] h = absurd (cc)
member-offered key (x ∷ xs) h = h

module _ (hello : SessionHello) (server : SessionOptions) where
  abbrev common : List String
  common = negotiate_capabilities server.capabilities hello.capabilities

  -- The client's own negotiation keeps every capability that the server has chosen, and no other.
  common-member :
      (key : String)
      → member key (negotiate_capabilities hello.capabilities common) ≡ member key common
  common-member key = ground (
    arith,
    (negotiate_capabilities-common hello.capabilities common).1 key,
    (negotiate_capabilities-common server.capabilities hello.capabilities).1 key,
    member-offered key hello.capabilities,
  )

  common-length : length (negotiate_capabilities hello.capabilities common) ≡ length common
  common-length = omega (
    arith,
    subset-length-le (negotiate_capabilities hello.capabilities common) common
        (negotiate_capabilities-common hello.capabilities common).0
        (λ key k. sym (common-member key) ∙ k),
    subset-length-le common (negotiate_capabilities hello.capabilities common)
        (negotiate_capabilities-common server.capabilities hello.capabilities).0
        (λ key k. common-member key ∙ k),
  )

limits-frame :
    (options : SessionOptions) → (1 ≤ (limits options).frame) × ((limits options).frame ≤ 1048576)
unfolding limits
limits-frame options = (ground arith, ground arith)

module _ (marshal : SessionAccept → List ℕ) (unmarshal : List ℕ → Option SessionAccept) where
  server-parts :
      (lookup_assignment : SessionHello → Option AssignmentView) (peer : Peer)
      (hello : SessionHello) (server : SessionOptions) (r : List ℕ × Session)
      → server_session marshal unmarshal lookup_assignment peer hello server ≡ ok r
      → (authorize_session hello r.1.assignment ≡ none)
        × (authorize_peer_identity peer hello.agent_id ≡ none)
        × (write_session_accept marshal unmarshal
              (accept_of r.1.assignment hello server)
              (limits server).frame
            ≡ ok r.0)
        × (r.1.capabilities ≡ (accept_of r.1.assignment hello server).capabilities)
  unfolding server_session resolve
  server-parts lookup_assignment peer hello server r h =
      elim (Option-cases (lookup_assignment hello)) [
        | inl q ↦ absurd (ground arith)
        | inr (a, q) ↦
            elim (Result-cases (
              write_session_accept marshal unmarshal (accept_of a hello server)
                (limits server).frame)) [
                  | inr (e, refused) ↦ absurd (ground (arith, q, refused))
                  | inl (frame, written) ↦ (
                    ground (arith, q, written),
                    ground (arith, q, written),
                    ground (arith, q, written),
                    ground (arith, q, written),
                  )
                ]
      ]

-- The two sessions of one handshake: the services and the capabilities are sets.
pub record Agreed (client server : Session) : Type 0 where
  pub same_id : client.assignment.id ≡ server.assignment.id
  pub same_agent : client.assignment.agent_id ≡ server.assignment.agent_id
  pub same_generation : client.assignment.generation ≡ server.assignment.generation
  pub same_services :
      (key : String)
      → member key client.assignment.service_ids ≡ member key server.assignment.service_ids
  pub same_capabilities :
      (key : String) → member key client.capabilities ≡ member key server.capabilities

common-sorted :
    (hello : SessionHello) (server : SessionOptions)
    → canonical_capabilities (common hello server) ≡ common hello server
unfolding negotiate_capabilities canonical_capabilities
common-sorted hello server =
    sort_strings-again (intersect hello.capabilities [] (offered server.capabilities))

client-agrees :
    (hello : SessionHello) (server client : SessionOptions) (s : Session)
    → Admitted hello s.assignment
    → s.capabilities ≡ common hello server
    → let answer = wire_accept (accept_of s.assignment hello server) in
      (accepted hello answer client ≡ ok (client_state hello answer client))
      × Agreed (client_state hello answer client) s
unfolding accepted canonical_service_ids
client-agrees hello server client s admitted chosen = (
  rw (common-sorted hello server) (
      ground (
        arith,
        common-length hello server,
        admitted.same_assignment,
        admitted.same_generation,
        string_keyed.same_iff s.assignment.id hello.assignment_id,
      )),
  record {
    same_id = refl;
    same_agent = admitted.same_agent;
    same_generation = refl;
    same_services = λ key. member-sort_strings key s.assignment.service_ids;
    same_capabilities = λ key.
        rw (common-sorted hello server)
          (common-member hello server key ∙ ap (member key) (sym chosen));
  },
)

-- A server that answers a hello has authorized it against the assignment of its session and found
-- the identity of the client in order. The client accepts the answer when its frame has at most six
-- bytes more than the client's frame limit, protobuf reads the message back as it was written, and
-- the server has the identity that the client expects, if it expects one; the two sessions then have
-- the same assignment, agent, generation, services and capabilities.
pub client_session-server_session :
    (marshal : SessionAccept → List ℕ) (unmarshal : List ℕ → Option SessionAccept)
    (lookup_assignment : SessionHello → Option AssignmentView) (peer peer' : Peer)
    (hello : SessionHello) (server client : SessionOptions) (r : List ℕ × Session)
    → server_session marshal unmarshal lookup_assignment peer hello server ≡ ok r
    → unmarshal (marshal (wire_accept (accept_of r.1.assignment hello server)))
      ≡ some (wire_accept (accept_of r.1.assignment hello server))
    → length r.0 ≤ (limits client).frame + 6
    → check_expected_peer peer' client ≡ none
    → (authorize_session hello r.1.assignment ≡ none)
      × (authorize_peer_identity peer hello.agent_id ≡ none)
      × ((c : Session) × (client_session marshal unmarshal peer' hello r.0 client ≡ ok c)
          × Agreed c r.1)
unfolding client_session
client_session-server_session marshal unmarshal lookup_assignment peer peer' hello server client r h
      inverse fits expected =
    let (authorized, identified, written, chosen) =
      server-parts marshal unmarshal lookup_assignment peer hello server r h in
    let answer = accept_of r.1.assignment hello server in
    let bounds = limits-frame client in
    let read =
      read_session_accept-write_session_accept marshal unmarshal answer r.0 (limits server).frame
        (limits client).frame (common-sorted hello server) inverse written bounds.0 bounds.1 fits in
    let (taken, agreed) =
      client-agrees hello server client r.1
        (authorize_session-Admitted hello r.1.assignment authorized) chosen in
    (
      authorized,
      identified,
      (
        client_state hello (wire_accept answer) client,
        ground (arith, expected, read, taken),
        agreed,
      ),
    )

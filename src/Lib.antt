-- ===== src/Lib.antt =====
-- A verification library for AsterFerry, a self-hosted private-network forwarding system. A
-- Controller (internal/controller) keeps identity, configuration and placement in a database
-- and sends each host a desired snapshot (internal/domain) over a gRPC control stream
-- (internal/controlwire). Each host runs one Node (internal/node), which the snapshot makes a
-- Gateway or an Agent. The node's data-plane engine (internal/dataplane) applies the snapshot
-- and admits sessions and streams, which travel over QUIC in the AFDP/1 protocol
-- (internal/afdp).
--
-- What models what, by file; the names are those of the Go code in lower case:
--   Text: the functions of strings, net and strconv that the code calls (TrimSpace,
--   ContainsAny, SplitHostPort, Atoi), over valid UTF-8 texts.
--   Domain: internal/domain. Types are the records of model_core.go; Id is ValidateID,
--   validateHostPort and validateEndpoint of model_validation_network.go; Pools is
--   PortPool.Validate; Selectors is Selector.Matches; Bindings is the key of a public
--   binding. Validation and its children are the Validate methods of model_core.go and
--   model_validation.go, down from the snapshot, and Checksum is checksum.go with Normalize
--   and WithChecksum of model_clone.go.
--   Netip and AddressPolicy: the addresses and prefixes of net/netip as numbers, and
--   internal/addresspolicy over them.
--   Afdp: internal/afdp. Datagram is protocol_datagram.go; Reassembly is the Reassembler of
--   protocol_reassembly.go and Fragments its splitting of payloads; Control is
--   protocol_control.go, with Capabilities for protocol_capabilities.go, Frames for the
--   control frame and the codec of an open and Accept for the codec of the answer to a hello
--   and its frame in session.go; Identity is the check of a peer's certificate in session.go,
--   and Session is what its two ends decide in a handshake. Errors holds the error values and
--   Bytes the big-endian integers.
--   Dataplane: internal/dataplane. Engine is the engine's record with the methods of
--   engine_types.go, engine_authorize.go and engine_clone.go; Engine/Snapshot is
--   engine_snapshot.go, and Engine/Validated joins it to the validation of Domain; Egress is
--   egress.go; Routing is the choice of a route in routing.go; Engine/Leases runs the engine
--   with the leases it has granted, under any sequence of the calls that grant and give back
--   leases, change snapshots, admit sessions, drain and close; AuthorizeOpen, ReleaseOpen,
--   AuthorizeLocalOpen and ReleaseLocalOpen, which count without a lease and which only tests
--   call, are modelled in Engine but are no calls of those runs.
--   Controller: internal/controller. Ports is scheduler_ports.go; Scheduler is Schedule of
--   scheduler_placement.go; Limits is the login limiter of ratelimit.go and the admission
--   limiter of admission.go; ChangeBus is the registry of node capabilities of change_bus.go;
--   Leadership is leadership.go, the lease by which one of several controllers leads, its
--   statements run with any times and replies; Idempotency and Obfuscation are the
--   idempotency keys, which PruneHistory of maintenance.go deletes, and the protection of
--   keys of store_security.go; Assignments is store_assignment_state.go, with PutAssignment
--   and its tests in Put and Checks (store_assignment_write.go) and in Derived the writes
--   that follow a changed service (store_assignment_links.go), a changed gateway
--   (store_node_spec_validation.go) or a quarantined node (store_resources.go), each call one
--   transaction on the rows of the assignments.
--   Node: internal/node. Reconnect is reconnect_state.go.
--   Base: the shared helpers. Results is Go's (value, error); Maps and Sets are Go's maps as
--   lists with one entry a key; Equality is the interface that keys are compared by.
--
-- How the code is read. A method on a struct is a function from the record to the record and
-- the results. A mutex makes a method one step, and a compare-and-swap loop is its successful
-- swap; where a method does two things that another goroutine may come between (a lease's
-- release, the two halves of ApplySnapshot), they are two steps. A `range` over a map visits it
-- in the order of the list, which is arbitrary, so the theorems hold for every order. A Go int
-- is a natural number: the code refuses negative values before it uses them, or treats every
-- value that is not positive alike. Unsigned counters wrap where they can: the engine's epoch
-- is taken modulo 2^64, and the theorem about it bounds the number of calls.
--
-- Parameters. protobuf's Marshal and Unmarshal, netip and the resolver of host names, the
-- context's error and the clock are arguments of the definitions that use them, with no
-- assumption except where a theorem names it. The cipher under the controller's master key and
-- the hash of a request are arguments. SHA-256, JSON, the GeoIP database and the lower case of
-- a text are arguments too. The validation of whole specs, services and snapshots is an
-- argument of the engine and the scheduler, so that what is proved of them holds for every
-- validation; Domain/Validation has the program's own.
--
-- Bounds. Every loop is structural: over the list it walks, over the ports that are left in a
-- range, or over the fragments that are left to send or to join. No definition runs on a fuel
-- that could give out. The revision of an assignment that PutAssignment replaces is raised
-- without the wrap of an int64, which 2^63 writes of one assignment would reach.
--
-- Not modelled: the database, whose constraints and transactions are read off the statements,
-- the HTTP API, the gRPC server and the enrolment of the controller, which are calls of their
-- drivers; the QUIC streams, the obfuscation layer and the copying of data, which are I/O; the
-- node's runtime around the state machine; updates and installation; the command line, the
-- dashboard and the scripts.
pub mod AddressPolicy
pub mod Afdp
pub mod Base
pub mod Controller
pub mod Dataplane
pub mod Domain
pub mod Netip
pub mod Node
pub mod Text

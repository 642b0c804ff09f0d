-- ===== src/Controller/Assignments/Put.antt =====
-- internal/controller/store_assignment_write.go: PutAssignment. The tables of nodes and services that it
-- reads come with the call, since other calls write them between two of these. The next revision is one
-- more, also past the largest int64, which no run of the program reaches.
use asterferry.Base.{
  ℕ, Bool, true, false, not, ◌&&◌, Option, none, some, List, [], ◌∷◌, String, Result, ok, err,
  ◌>>=◌, ltb, any, keep, map, if◌then◌else◌, ◌orelse◌, reject, first_error, ◌==◌, nat_keyed,
  string_keyed,
}
use asterferry.Base.Maps.{Map, lookup, insert, erase}
use asterferry.Base.Sets.{member}
use asterferry.Domain.Types.{Assignment, Binding}
use asterferry.Domain.Validation.{Platform}
use asterferry.Domain.Validation.Resources.{validate_assignment}
use asterferry.Controller.Ports.{BindingKey, binding_keyed, normalize_bind}
use asterferry.Controller.Scheduler.{is_inactive}
use asterferry.Controller.Obfuscation.{
  Cipher, protect_obfuscation_policy, obfuscation_request_policy,
}
use asterferry.Controller.Idempotency.{StoredKey}
use asterferry.Controller.Assignments.{
  AssignmentError, controller_owned, generation_too_large, service_assigned, invalid, unprotected,
  Row, Store, Request, put_request, max_int64, keyed_hit, recorded,
}
use asterferry.Controller.Assignments.Checks.{
  Tables, superseded, next_revision, key_of, port_taken, check_put,
}

unfoldable pub with_default_state : Assignment → Assignment
with_default_state a = record a { state = (if a.state == "" then "pending" else a.state) }

unfoldable pub erase_all : List String → Map String Row → Map String Row
erase_all [] rows = rows
erase_all (id ∷ ids) rows = erase_all ids (erase id rows)

unfoldable pub requested : Assignment → Assignment
requested a = record a {
  revision = 0;
  updated_at = 0;
  obfuscation = obfuscation_request_policy a.obfuscation;
}

-- A row of another assignment
abbrev is_other : String → String × Row → Bool
is_other id entry = not (entry.0 == id)

-- UNIQUE(service_id) of assignment_services
unfoldable pub check_free_services : Assignment → Map String Row → Option AssignmentError
check_free_services a rows =
    reject
      (any
        (λ (entry : String × Row).
          any (λ service. member service a.service_ids) entry.1.assignment.service_ids)
        (keep (is_other a.id) rows))
      service_assigned

abbrev pub stored_key : Binding → BindingKey
stored_key b = record { protocol = b.protocol; bind = b.bind; port = b.port }

-- The keys that an assignment holds at its gateway
abbrev pub held_keys : Row → List BindingKey
held_keys row = map stored_key row.assignment.bindings

-- A row of another assignment that has a key at a gateway
unfoldable pub occupies : Assignment → BindingKey → String × Row → Bool
occupies a key entry =
    is_other a.id entry
    && entry.1.assignment.gateway_id == a.gateway_id
    && member key (held_keys entry.1)

module _ (platform : Platform) where
  unfoldable pub stored_binding : Binding → Binding
  stored_binding b = record b { bind = normalize_bind platform.parse b.bind }

  -- The bindings are stored with normalized addresses, and those of an inactive assignment not at all.
  unfoldable pub stored_bindings : Assignment → List Binding
  stored_bindings a = if is_inactive a then [] else map stored_binding a.bindings

  unfoldable pub stored : Assignment → ℕ → ℕ → Row
  stored a revision now = record {
    assignment = record a { revision = revision; updated_at = now; bindings = stored_bindings a };
    acks = [];
  }

  -- UNIQUE(gateway_id,protocol,bind,port) of assignment_bindings. That an assignment's own bindings
  -- differ has been tested by its Validate.
  unfoldable pub check_free_bindings : Assignment → Map String Row → Option AssignmentError
  check_free_bindings a rows =
      if is_inactive a
      then none
      else first_error (λ b. reject (any (occupies a (key_of platform b)) rows) (port_taken a b))
          a.bindings

  -- replaceAssignmentChildrenTx
  unfoldable pub check_children : Assignment → Map String Row → Option AssignmentError
  check_children a rows = check_free_services a rows orelse check_free_bindings a rows

  unfoldable pub write_put :
      Assignment → ℕ → Map String Row → Result AssignmentError (Map String Row)
  write_put a now rows =
      let others = erase_all (superseded a rows) rows in
      elim (check_children a others) [
        | some e ↦ err e
        | none ↦ ok (insert a.id (stored a (next_revision (lookup a.id rows)) now) others)
      ]

  unfoldable pub put_found :
      String
      → Tables
      → Assignment
      → String
      → ℕ
      → ℕ
      → Store
      → Bool × Map String StoredKey
      → Result AssignmentError Store
  put_found hashed tables a given if_match now s (true, keys) = ok s
  put_found hashed tables a given if_match now s (false, keys) =
      elim (check_put platform tables a if_match s.rows) [
        | some e ↦ err e
        | none ↦ write_put a now s.rows >>= λ rows. recorded given hashed rows keys
      ]

  -- The transaction, for an assignment whose obfuscation policy is protected.
  unfoldable pub put_protected :
      (Request → String)
      → Tables
      → Assignment
      → String
      → ℕ
      → ℕ
      → Store
      → Result AssignmentError Store
  put_protected hash tables a given if_match now s =
      let hashed = hash (put_request (requested a) if_match) in
      keyed_hit given hashed now s.keys >>= λ found.
      put_found hashed tables a given if_match now s found

  unfoldable pub check_given : Assignment → Option AssignmentError
  check_given a =
      reject (a.state == "applied") controller_owned
      orelse (elim (validate_assignment platform a) [ none ↦ none | some e ↦ some (invalid e) ])

  unfoldable pub put_assignment :
      Cipher
      → (Request → String)
      → Tables
      → Assignment
      → String
      → ℕ
      → ℕ
      → Store
      → Result AssignmentError Store
  put_assignment cipher hash tables given key if_match now s =
      let a = with_default_state given in
      elim (check_given a) [
        | some e ↦ err e
        | none ↦ elim (protect_obfuscation_policy platform cipher a.obfuscation) [
          | err e ↦ err (unprotected e)
          | ok o ↦
              if ltb max_int64 a.generation
              then err generation_too_large
              else put_protected hash tables (record a { obfuscation = o }) key if_match now s
        ]
      ]

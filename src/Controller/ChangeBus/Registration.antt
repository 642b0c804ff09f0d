-- ===== src/Controller/ChangeBus/Registration.antt =====
-- A node's registration outlives the streams it has replaced (internal/controller/change_bus.go).
use asterferry.Base.{
  ℕ, false, ◌≡◌, ◌≢◌, some, Option-cases, inl, inr, List, [], ◌∷◌, String, nat_keyed, string_keyed,
  arith,
}
use asterferry.Base.Maps.{lookup, lookup-insert, lookup-erase, lookup-insert_self}
use asterferry.Text.{trim_space}
use asterferry.Controller.ChangeBus.{
  ChangeBus, take_token, register, clear_node_capabilities, node_capabilities,
}

-- The calls of the control streams, each in one step.
pub data Call : Type 0 where
  takes : Call
  registers : String → ℕ → List String → Call
  clears : String → ℕ → Call

unfoldable pub step : ChangeBus → Call → ChangeBus
step b takes = (take_token b).0
step b (registers node_id token items) = register b node_id token items
step b (clears node_id token) = clear_node_capabilities b node_id token

unfoldable pub run : ChangeBus → List Call → ChangeBus
run b [] = b
run b (c ∷ cs) = run (step b c) cs

-- The call is not about a node's registration with a token: it neither replaces it nor clears it.
abbrev pub Spares : String → ℕ → Call → Type 0
Spares node_id token takes = Unit
Spares node_id token (registers other t items) = trim_space other ≢ trim_space node_id
Spares node_id token (clears other t) = (trim_space other ≡ trim_space node_id) → t ≢ token

abbrev pub AllSpare : String → ℕ → List Call → Type 0
AllSpare node_id token [] = Unit
AllSpare node_id token (c ∷ cs) = Spares node_id token c × AllSpare node_id token cs

module _ (node_id : String) (token : ℕ) (items : List String) where
  -- The node is registered with the token.
  Registered : ChangeBus → Type 0
  Registered b =
      lookup (trim_space node_id) b.capabilities ≡ some (record { token = token; items = items })

  step-Registered :
      (b : ChangeBus) (c : Call) → Spares node_id token c → Registered b → Registered (step b c)
  unfolding step take_token register clear_node_capabilities Registered
  step-Registered b takes spares h = h
  step-Registered b (registers other t its) spares h = ground (
    arith,
    lookup-insert (trim_space other) (trim_space node_id) (record { token = t; items = its })
        b.capabilities,
    string_keyed.same_iff (trim_space other) (trim_space node_id),
  )
  step-Registered b (clears other t) spares h =
      elim (Option-cases (lookup (trim_space other) b.capabilities)) [
        | inl q ↦ ground arith
        | inr (current, q) ↦ ground (
          arith,
          lookup-erase (trim_space other) (trim_space node_id) b.capabilities,
          string_keyed.same_iff (trim_space other) (trim_space node_id),
        )
      ]

  run-Registered :
      (b : ChangeBus) (cs : List Call)
      → AllSpare node_id token cs
      → Registered b
      → Registered (run b cs)
  unfolding run
  run-Registered b [] spares h = h
  run-Registered b (c ∷ cs) spares h =
      run-Registered (step b c) cs spares.1 (step-Registered b c spares.0 h)

  -- On a bus that is open, what a stream registers for a node is what NodeCapabilities returns after any
  -- further calls, of any streams, that neither register that node again nor clear it with the same
  -- token: an older stream of the node that ends late does not remove the registration.
  pub node_capabilities-register :
      (b : ChangeBus) (cs : List Call)
      → b.closed ≡ false
      → AllSpare node_id token cs
      → node_capabilities (run (register b node_id token items) cs) node_id ≡ items
  unfolding node_capabilities register Registered
  node_capabilities-register b cs opened spares =
      ground
        (arith, run-Registered (register b node_id token items) cs spares (registered b opened))
    where
      registered : (x : ChangeBus) → x.closed ≡ false → Registered (register x node_id token items)
      registered x q = ground (
        arith,
        lookup-insert_self (trim_space node_id) (record { token = token; items = items })
            x.capabilities,
      )

-- ===== src/Controller/ChangeBus.antt =====
-- internal/controller/change_bus.go: the capabilities that connected nodes have announced. The token
-- is taken from the atomic counter before the mutex, so SetNodeCapabilities is two steps, `take_token`
-- and `register`. The subscriptions of the bus are channels and left out.
pub mod Registration
mod Tests
use asterferry.Base.{
  ℕ, ◌+◌, ◌%◌, Bool, true, false, Option, none, some, List, [], ◌∷◌, String, if◌then◌else◌, ◌==◌,
  nat_keyed, string_keyed,
}
use asterferry.Base.Maps.{Map, lookup, insert, erase}
use asterferry.Text.{trim_space}

pub record NodeCapability : Type 0 where
  pub token : ℕ
  pub items : List String

pub record ChangeBus : Type 0 where
  pub capabilities : Map String NodeCapability
  pub next_capability : ℕ
  pub closed : Bool

unfoldable pub new_change_bus : ChangeBus
new_change_bus = record { capabilities = []; next_capability = 0; closed = false }

-- `b.nextCapability.Add(1)`
unfoldable pub take_token : ChangeBus → ChangeBus × ℕ
take_token b =
    let token = (b.next_capability + 1) % 18446744073709551616 in
    (record b { next_capability = token }, token)

-- SetNodeCapabilities behind `b.capabilityMu.Lock()`
unfoldable pub register : ChangeBus → String → ℕ → List String → ChangeBus
register b node_id token items = if b.closed then b else record b {
  capabilities =
      insert (trim_space node_id) (record { token = token; items = items }) b.capabilities;
}

unfoldable pub clear_node_capabilities : ChangeBus → String → ℕ → ChangeBus
clear_node_capabilities b node_id token = elim (lookup (trim_space node_id) b.capabilities) [
  | none ↦ b
  | some current ↦
      if current.token == token
      then record b { capabilities = erase (trim_space node_id) b.capabilities }
      else b
]

unfoldable pub node_capabilities : ChangeBus → String → List String
node_capabilities b node_id = elim (lookup (trim_space node_id) b.capabilities) [
  | none ↦ []
  | some current ↦ current.items
]

-- Close, as far as the capabilities go, and its last part. The flag is set before the mutex is taken,
-- and until then only refuses registrations.
unfoldable pub close : ChangeBus → ChangeBus
close b = record b { closed = true; capabilities = [] }

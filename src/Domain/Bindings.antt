-- ===== src/Domain/Bindings.antt =====
-- The public bindings of internal/domain/model_validation.go, and normalizedIP of model_validation_network.go.
-- The key `protocol|bind|port` is kept as its three parts. netip is a parameter: `parse` is the text of the
-- unmapped address that a text parses to.
use asterferry.Base.{
  ℕ, Bool, true, ◌&&◌, ◌↔◌, ◌≡◌, Option, none, some, String, Keyed, ◌==◌, nat_keyed, string_keyed,
  arith,
}
use asterferry.Text.{trim_space}

pub record BindingKey : Type 0 where
  pub protocol : String
  pub bind : String
  pub port : ℕ

abbrev pub key_beq : BindingKey → BindingKey → Bool
key_beq a b = (a.protocol == b.protocol) && (a.bind == b.bind) && (a.port == b.port)

pub key_beq_iff : (a b : BindingKey) → (key_beq a b ≡ true) ↔ (a ≡ b)
key_beq_iff a b =
    ground (arith, string_keyed.same_iff a.protocol b.protocol, string_keyed.same_iff a.bind b.bind)

instance abbrev pub binding_keyed : Keyed BindingKey
binding_keyed = record { same = key_beq; same_iff = key_beq_iff }

unfoldable pub normalized_ip : (String → Option String) → String → String
normalized_ip parse value =
    let trimmed = trim_space value in
    elim (parse trimmed) [ none ↦ trimmed | some address ↦ address ]

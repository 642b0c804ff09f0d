-- ===== src/Afdp/Control/Parts.antt =====
-- The parts of an open that internal/afdp/protocol_control.go tests, without its tests: the state of the
-- placement, the target and the service id.
use asterferry.Base.{
  ℕ, ◌||◌, ◌==◌, some, inl, inr, ◌≢◌, ◌↔◌, Option-cases, Bool-cases, subst, true, false, ◌≡◌, none,
  String, arith, string_keyed, nat_keyed, ◌≤◌,
}
use Prim.Native.String.{len}
use asterferry.Text.{trim_space, any_rune, split_host_port, is_port, atoi}
use asterferry.Domain.Id.{validate_id}
use asterferry.Domain.Id.Alphabet.{IsId, validate_id-IsId}
use asterferry.Afdp.Control.{is_blocked, is_target, is_wire_id}

-- The states of a placement that admit nothing are not this one.
abbrev pub Unblocked : String → Type 0
Unblocked state = (state ≢ "pending") × (state ≢ "draining") × (state ≢ "degraded")

pub is_blocked-Unblocked : (state : String) → (is_blocked state ≡ false) ↔ Unblocked state
unfolding is_blocked
is_blocked-Unblocked state =
    let pending = string_keyed.same_iff state "pending" in
    let draining = string_keyed.same_iff state "draining" in
    let degraded = string_keyed.same_iff state "degraded" in
    (
      λ h. (
        λ e. absurd (ground (arith, pending, e)),
        λ e. absurd (ground (arith, draining, e)),
        λ e. absurd (ground (arith, degraded, e)),
      ),
      λ u. ground (arith, pending, draining, degraded, u.0, u.1, u.2),
    )

-- A target is a host and a port from 1 to 65535.
pub record IsTarget (target : String) : Type 0 where
  pub host : String
  pub port : String
  pub number : ℕ
  pub split : split_host_port target ≡ some (host, port)
  pub named : trim_space host ≢ ""
  pub trimmed : host ≡ trim_space host
  pub no_blank : any_rune (λ r. r == 9 || r == 32) port ≡ false
  pub read : atoi port ≡ some (false, number)
  pub least : 1 ≤ number
  pub most : number ≤ 65535

port-number :
    (text : String)
    → is_port text ≡ true
    → (number : ℕ) × (atoi text ≡ some (false, number)) × (1 ≤ number) × (number ≤ 65535)
unfolding is_port
port-number text h = elim (Option-cases (atoi text)) [
  | inl unread ↦ absurd (ground (arith, unread))
  | inr ((negative, number), found) ↦ elim (Bool-cases negative) [
    | inl below ↦ absurd (ground (arith, found, below))
    | inr above ↦
        (number, ground (arith, found, above), ground (arith, found), ground (arith, found))
  ]
]

pub is_target-IsTarget : (target : String) → (is_target target ≡ true) ↔ IsTarget target
unfolding is_target is_port
is_target-IsTarget target = (forth, back)
  where
    forth : is_target target ≡ true → IsTarget target
    forth h = elim (Option-cases (split_host_port target)) [
      | inl whole ↦ absurd (ground (arith, whole))
      | inr ((host, port), parts) ↦
          let read = port-number port (ground (arith, parts)) in
          record {
            host = host;
            port = port;
            number = read.0;
            split = parts;
            named =
                λ e. absurd (ground (arith, parts, string_keyed.same_iff (trim_space host) "", e));
            trimmed = ground (arith, parts, string_keyed.same_iff host (trim_space host));
            no_blank = ground (arith, parts);
            read = read.1;
            least = read.2;
            most = read.3;
          }
    ]

    back : IsTarget target → is_target target ≡ true
    back t = ground (
      arith,
      t.split,
      t.named,
      t.no_blank,
      t.read,
      t.least,
      t.most,
      string_keyed.same_iff (trim_space t.host) "",
      string_keyed.same_iff t.host (trim_space t.host),
      t.trimmed,
    )

pub is_wire_id-IsId : (value : String) → (is_wire_id value 128 ≡ true) ↔ IsId value
unfolding is_wire_id
is_wire_id-IsId value = (
  λ h. (validate_id-IsId value).0 (ground arith),
  λ v.
      let accepted : validate_id value ≡ none = (validate_id-IsId value).1 v in
      let named : value ≢ "" = λ e. absurd (omega (arith, subst (λ s. 1 ≤ len s) e v.not_empty)) in
      ground (arith, accepted, v.not_long, named, string_keyed.same_iff value ""),
)

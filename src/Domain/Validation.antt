-- ===== src/Domain/Validation.antt =====
-- internal/domain: the Validate methods, from the parts up. Of an ApplyError its code and message are
-- kept, without the path and without what is formatted into the message; `plain` is an error that has
-- only a text, and `wrapped` an ApplyError whose message is the text of another error. A Go integer is
-- a number that is not negative, so the tests on negative values have no place here. Which entry of a map
-- a `range` meets first is left open by Go; here it is the first of the list.
pub mod Egress
pub mod Specs
pub mod Resources
pub mod Snapshot
pub mod Claims
pub mod Collected
pub mod Agreement
pub mod Consistent
pub mod Accepted
mod Tests
use Prim.Native.String.{len}
use asterferry.Base.{
  ℕ, ◌*◌, Bool, true, false, not, ◌&&◌, ◌||◌, Option, none, some, List, [], ◌∷◌, String, ltb, any,
  length, ◌orelse◌, reject, first_error, ◌==◌, nat_keyed, string_keyed,
}
use asterferry.Base.Maps.{Map}
use asterferry.Text.{trim_space, any_rune}
use asterferry.Netip.{Prefix}
use asterferry.Domain.Types.{Node, Selector, ObfuscationPolicy, DesiredSnapshot}
use asterferry.Domain.Id.{validate_id, contains_control, is_endpoint, is_host_port}

pub data Issue : Type 0 where
  invalid : String → String → Issue
  plain : String → Issue
  wrapped : String → Issue → Issue

-- The functions of other packages. `parse` is the text of the unmapped address that netip.ParseAddr
-- reads; `parse_prefix` is netip.ParsePrefix; `resolves` tells whether net.ResolveTCPAddr accepts an
-- address and a port; `digest` is a SHA-256 sum in hex; `lower` and `equal_fold` are those of strings.
pub record Platform : Type 0 where
  pub parse : String → Option String
  pub parse_prefix : String → Option Prefix
  pub resolves : String → ℕ → Bool
  pub digest : List ℕ → String
  pub lower : String → String
  pub equal_fold : String → String → Bool

abbrev pub wrap : String → Option Issue → Option Issue
wrap code none = none
wrap code (some cause) = some (wrapped code cause)

abbrev id_issue : Option String → Option Issue
id_issue none = none
id_issue (some message) = some (invalid "invalid_id" message)

unfoldable pub check_id : String → Option Issue
check_id value = id_issue (validate_id value)

-- validateEndpoint and validateHostPort, with one text for all of their errors
abbrev pub check_endpoint : String → Option Issue
check_endpoint value = reject (not (is_endpoint value)) (plain "endpoint is invalid")

abbrev pub check_host_port : String → Option Issue
check_host_port value = reject (not (is_host_port value)) (plain "host:port is invalid")

abbrev pub is_transport : String → Bool
is_transport protocol = protocol == "tcp" || protocol == "udp"

unfoldable pub is_bad_key : String → Bool
is_bad_key key =
    trim_space key == "" || not (trim_space key == key) || ltb 128 (len key) || contains_control key

unfoldable pub is_bad_value : String → Bool
is_bad_value value = ltb 256 (len value) || contains_control value

abbrev pub is_bad_label : String × String → Bool
is_bad_label label = is_bad_key label.0 || is_bad_value label.1

unfoldable pub validate_labels : Map String String → Option Issue
validate_labels labels =
    reject (ltb 128 (length labels)) (invalid "invalid_labels" "too many labels")
    orelse reject (any is_bad_label labels) (invalid "invalid_labels" "label is invalid")

abbrev pub labels_of : Option (Map String String) → Map String String
labels_of none = []
labels_of (some labels) = labels

abbrev is_certificate_state : String → Bool
is_certificate_state state =
    state == ""
    || state == "pending"
    || state == "active"
    || state == "revoked"
    || state == "expired"
    || state == "decommissioned"

unfoldable pub validate_metadata : Node → Option Issue
validate_metadata n =
    let name = trim_space n.name in
    reject (name == "" || ltb 128 (len name) || contains_control name)
      (invalid "invalid_name" "name must contain 1 to 128 printable characters")
    orelse reject (not (is_certificate_state n.certificate_state))
        (invalid "invalid_certificate_state" "certificate state is invalid")
    orelse reject (n.certificate_state == "active" && trim_space n.certificate_serial == "")
        (invalid "invalid_certificate_serial" "an active node must have a certificate serial")
    orelse reject (ltb 256 (len n.certificate_serial) || contains_control n.certificate_serial)
        (invalid "invalid_certificate_serial" "certificate serial is invalid")
    orelse reject (ltb 128 (length (labels_of n.labels)))
        (invalid "invalid_labels" "node has too many labels")
    orelse reject (any is_bad_label (labels_of n.labels))
        (invalid "invalid_labels" "node label is invalid")

unfoldable pub validate_node : Node → Option Issue
validate_node n = check_id n.id orelse validate_metadata n

abbrev check_selector_label : String × String → Option Issue
check_selector_label label =
    reject (is_bad_key label.0) (invalid "invalid_selector" "selector label key is invalid")
    orelse reject (is_bad_value label.1)
        (invalid "invalid_selector" "selector label value is invalid")

unfoldable pub validate_selector : Selector → Option Issue
validate_selector s =
    reject (ltb 128 (length s.match_labels))
      (invalid "invalid_selector" "selector contains too many labels")
    orelse first_error check_selector_label s.match_labels

module _ (platform : Platform) where
  unfoldable pub obfuscation_key_id : List ℕ → String
  obfuscation_key_id [] = ""
  obfuscation_key_id (b ∷ key) = platform.digest (b ∷ key)

  abbrev is_bad_length : List ℕ → Bool
  is_bad_length key = not (length key == 0) && not (length key == 32)

  abbrev is_bad_key_id : String → Bool
  is_bad_key_id id = ltb 128 (len id) || any_rune (λ r. r == 0 || r == 13 || r == 10) id

  -- A key id that is given must be that of the key that is given.
  abbrev names_other : List ℕ → String → Bool
  names_other key id = ltb 0 (length key) && not (id == "") && not (id == obfuscation_key_id key)

  unfoldable pub validate_obfuscation : ObfuscationPolicy → Option Issue
  validate_obfuscation o =
      reject (not (o.mode == "") && not (o.mode == "standard") && not (o.mode == "camouflage"))
        (invalid "invalid_obfuscation" "obfuscation mode must be standard or camouflage")
      orelse reject (o.mode == "camouflage" && length o.key == 0 && length o.key_ciphertext == 0)
          (invalid "invalid_obfuscation" "camouflage mode requires a protected key")
      orelse reject (is_bad_length o.key || is_bad_length o.previous_key) (
          invalid "invalid_obfuscation" "data-plane obfuscation keys must contain exactly 32 bytes")
      orelse reject (names_other o.key o.key_id)
          (invalid "invalid_obfuscation" "key_id does not identify key")
      orelse reject (names_other o.previous_key o.previous_key_id)
          (invalid "invalid_obfuscation" "previous_key_id does not identify previous_key")
      orelse reject (is_bad_key_id o.key_id || is_bad_key_id o.previous_key_id)
          (invalid "invalid_obfuscation" "obfuscation key id is invalid")
      orelse reject (ltb (64 * 1024) o.max_padding_bytes)
          (invalid "invalid_obfuscation" "obfuscation padding limit is out of range")
      orelse reject (ltb (128 * 1024) (length o.key_ciphertext))
          (invalid "invalid_obfuscation" "obfuscation key ciphertext is too large")
      orelse reject (ltb (128 * 1024) (length o.previous_key_ciphertext))
          (invalid "invalid_obfuscation" "previous obfuscation key ciphertext is too large")

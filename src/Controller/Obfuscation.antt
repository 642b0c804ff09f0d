-- ===== src/Controller/Obfuscation.antt =====
-- internal/controller/store_security.go: the protection of the obfuscation keys of a policy. The cipher
-- under the controller's master key is a parameter, which draws its nonce itself.
use asterferry.Base.{
  ℕ, not, ◌&&◌, ◌||◌, Option, none, some, List, [], String, Result, ok, err, ◌>>=◌, length,
  if◌then◌else◌, ◌==◌, nat_keyed, string_keyed,
}
use asterferry.Domain.Types.{ObfuscationPolicy}
use asterferry.Domain.Validation.{Platform, obfuscation_key_id}

pub data ProtectionError : Type 0 where
  bad_mode bad_key_length not_encrypted no_current_key bad_ciphertext other_key_id : ProtectionError

-- EncryptSecret and DecryptSecret, which may fail
pub record Cipher : Type 0 where
  pub encrypt : List ℕ → Option (List ℕ)
  pub decrypt : List ℕ → Option (List ℕ)

-- A key, its ciphertext and its id
pub record KeySlot : Type 0 where
  pub key : List ℕ
  pub ciphertext : List ℕ
  pub id : String

module _ (platform : Platform) (cipher : Cipher) where
  -- A key that was given is encrypted.
  unfoldable pub sealed : KeySlot → Result ProtectionError KeySlot
  sealed slot =
      if length slot.key == 0
      then ok slot
      else (if not (length slot.key == 32)
          then err bad_key_length
          else (elim (cipher.encrypt slot.key) [
            | none ↦ err not_encrypted
            | some ciphertext ↦ ok (record {
              key = [];
              ciphertext = ciphertext;
              id = obfuscation_key_id platform slot.key;
            })
          ]))

  -- A ciphertext must hold a key of 32 bytes, whose id is kept.
  unfoldable pub identified : KeySlot → Result ProtectionError KeySlot
  identified slot = elim (cipher.decrypt slot.ciphertext) [
    | none ↦ err bad_ciphertext
    | some key ↦
        if not (length key == 32)
        then err bad_ciphertext
        else (if not (slot.id == "") && not (slot.id == obfuscation_key_id platform key)
            then err other_key_id
            else ok (record slot { id = obfuscation_key_id platform key }))
  ]

  unfoldable pub protect_current : KeySlot → Result ProtectionError KeySlot
  protect_current given = sealed given >>= λ slot.
      if length slot.ciphertext == 0 then err no_current_key else identified slot

  unfoldable pub protect_previous : KeySlot → Result ProtectionError KeySlot
  protect_previous given =
      sealed given >>= λ slot. if length slot.ciphertext == 0 then ok slot else identified slot

  unfoldable pub current_slot : ObfuscationPolicy → KeySlot
  current_slot o = record { key = o.key; ciphertext = o.key_ciphertext; id = o.key_id }

  unfoldable pub previous_slot : ObfuscationPolicy → KeySlot
  previous_slot o = record {
    key = o.previous_key;
    ciphertext = o.previous_key_ciphertext;
    id = o.previous_key_id;
  }

  unfoldable pub with_slots : ObfuscationPolicy → KeySlot → KeySlot → ObfuscationPolicy
  with_slots o current previous = record o {
    key = [];
    previous_key = [];
    key_ciphertext = current.ciphertext;
    key_id = current.id;
    previous_key_ciphertext = previous.ciphertext;
    previous_key_id = previous.id;
  }

  unfoldable pub protect_obfuscation_policy :
      ObfuscationPolicy → Result ProtectionError ObfuscationPolicy
  protect_obfuscation_policy o =
      if o.mode == "" || o.mode == "standard"
      then ok (
          with_slots o (record { key = []; ciphertext = []; id = "" })
            (record { key = []; ciphertext = []; id = "" }))
      else (if not (o.mode == "camouflage")
          then err bad_mode
          else (protect_current (current_slot o) >>= λ current.
              protect_previous (previous_slot o) >>= λ previous.
              ok (with_slots o current previous)))

unfoldable pub obfuscation_request_policy : ObfuscationPolicy → ObfuscationPolicy
obfuscation_request_policy o = record o {
  key = [];
  previous_key = [];
  key_ciphertext = [];
  previous_key_ciphertext = [];
}

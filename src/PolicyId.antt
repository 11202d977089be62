-- ===== src/PolicyId.antt =====
-- Token identities (src/policy_id.rs).
use naumachia.Prelude.{
  ◌≡◌, ◌↔◌, Bool, true, false, ◌&&◌, Option, none, String, arith, Eq, ◌==◌, string_eq, option_eq,
  option_beq_iff,
}

pub data PolicyId : Type 0 where
  lovelace : PolicyId
  native_token : String → Option String → PolicyId

unfoldable pub ada : PolicyId
ada = lovelace

-- `PolicyId::native_token`, the constructor function.
unfoldable pub new_native_token : String → Option String → PolicyId
new_native_token id asset = native_token id asset

unfoldable pub id : PolicyId → String
id lovelace = ""
id (native_token i _) = i

unfoldable pub asset_name : PolicyId → Option String
asset_name lovelace = none
asset_name (native_token _ a) = a

-- The derived `PartialEq`.
abbrev pub policy_beq : PolicyId → PolicyId → Bool
policy_beq lovelace lovelace = true
policy_beq (native_token i a) (native_token j b) = (i == j) && (a == b)
policy_beq _ _ = false

pub policy_beq_iff : (p q : PolicyId) → (policy_beq p q ≡ true) ↔ (p ≡ q)
policy_beq_iff lovelace lovelace = ground arith
policy_beq_iff lovelace (native_token j b) = ground arith
policy_beq_iff (native_token i a) lovelace = ground arith
policy_beq_iff (native_token i a) (native_token j b) =
    ground (arith, string_eq.beq_iff i j, option_beq_iff a b)

instance abbrev pub policy_eq : Eq PolicyId
policy_eq = record { beq = policy_beq; beq_iff = policy_beq_iff }

-- ===== src/Scripts/Context/Nested.antt =====
-- Nested maps of amounts, and a bag of tokens as one (src/scripts/context.rs).
use naumachia.Prelude.{ℕ, none, some, List, [], ◌∷◌, String, string_eq, add_u64}
use naumachia.HashMap.{HashMap, get, insert, erase}
use naumachia.PolicyId.{PolicyId, lovelace, native_token}

abbrev pub NestedMap : Type 0
NestedMap = HashMap String (HashMap String ℕ)

-- The assets of a policy with an amount added to one.
unfoldable pub add_asset : HashMap String ℕ → String → ℕ → HashMap String ℕ
add_asset assets asset_name amt = elim (get asset_name assets) [
  | some total_amt ↦ insert asset_name (add_u64 total_amt amt) (erase asset_name assets)
  | none ↦ insert asset_name amt assets
]

-- `add_to_nested`: the assets of the policy are taken out, changed and put back.
unfoldable pub add_to_nested : NestedMap → String → String → ℕ → NestedMap
add_to_nested values policy_id asset_name amt = elim (get policy_id values) [
  | some assets ↦ insert policy_id (add_asset assets asset_name amt) (erase policy_id values)
  | none ↦ insert policy_id (insert asset_name amt []) values
]

-- The policy id and the asset name that a policy goes under.
unfoldable pub ctx_key : PolicyId → String × String
ctx_key lovelace = ("", "")
ctx_key (native_token policy_id (some asset_name)) = (policy_id, asset_name)
ctx_key (native_token policy_id none) = (policy_id, "")

-- The loop of `CtxValue::from`.
unfoldable pub ctx_inner : NestedMap → List (PolicyId × ℕ) → NestedMap
ctx_inner inner [] = inner
ctx_inner inner ((policy, amt) ∷ entries) =
    let (policy_id, asset_name) = ctx_key policy in
    ctx_inner (add_to_nested inner policy_id asset_name amt) entries

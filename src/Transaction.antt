-- ===== src/Transaction.antt =====
-- Declarative actions and the transaction that they come to (src/transaction.rs,
-- src/transaction/nested_value_map.rs).
pub mod Collected
pub mod Payments
use naumachia.Prelude.{
  ℕ, Option, none, some, List, [], ◌∷◌, ◌++◌, String, string_eq, Outcome, ok, ◌>>=◌, expect, ok_or,
}
use naumachia.Prelude.Int.{ℤ}
use naumachia.HashMap.{HashMap, get, insert}
use naumachia.Address.{AddressLib}
use naumachia.Errors.{Error}
use naumachia.PolicyId.{PolicyId}
use naumachia.Values.{Values, empty, add_one_value, add_entries, vec}
use naumachia.Scripts.{Validator, MintingPolicy}
use naumachia.Output.{Output, UnbuiltOutput, validator, unbuilt_wallet}

pub data TransactionVersion : Type 0 where
  v1 v2 : TransactionVersion

-- Seconds since the Unix epoch.
abbrev pub Range : Type 0
Range = Option ℤ × Option ℤ

pub data Action (A D R : Type 0) : Type 0 where
  transfer : ℕ → A → PolicyId → Action A D R
  mint : ℕ → Option String → R → MintingPolicy A R → Action A D R
  init_script : D → Values → A → Action A D R
  redeem_script_output : Output D → R → Validator A D R → Action A D R
  specific_input : Output D → Action A D R

pub record TxActions (A D R : Type 0) : Type 0 where
  pub script_version : TransactionVersion
  pub actions : List (Action A D R)
  pub valid_range : Range

-- What is minted: the amount, the asset name, the redeemer and the policy.
abbrev pub Minting : Type 0 → Type 0 → Type 0
Minting A R = ℕ × Option String × R × MintingPolicy A R

abbrev pub RedemptionDetails : Type 0 → Type 0 → Type 0 → Type 0
RedemptionDetails A D R = Output D × R × Validator A D R

pub record UnbuiltTransaction (A D R : Type 0) : Type 0 where
  pub script_version : TransactionVersion
  pub script_inputs : List (RedemptionDetails A D R)
  pub unbuilt_outputs : List (UnbuiltOutput D)
  pub minting : List (Minting A R)
  pub specific_wallet_inputs : List (Output D)
  pub valid_range : Range

module _ {A D R : Type 0} where
  -- `TxActions::v1` and `TxActions::v2`
  unfoldable pub tx_actions : TransactionVersion → TxActions A D R
  tx_actions version = record { script_version = version; actions = []; valid_range = (none, none) }

  pub push : TxActions A D R → Action A D R → TxActions A D R
  push tx action = record tx { actions = tx.actions ++ action ∷ [] }

  unfoldable pub with_transfer : TxActions A D R → ℕ → A → PolicyId → TxActions A D R
  unfolding push
  with_transfer tx amount recipient policy_id = push tx (transfer amount recipient policy_id)

  unfoldable pub with_mint :
      TxActions A D R → ℕ → Option String → R → MintingPolicy A R → TxActions A D R
  unfolding push
  with_mint tx amount asset_name redeemer policy = push tx (mint amount asset_name redeemer policy)

  unfoldable pub with_script_init : TxActions A D R → D → Values → A → TxActions A D R
  unfolding push
  with_script_init tx datum values address = push tx (init_script datum values address)

  unfoldable pub with_script_redeem :
      TxActions A D R → Output D → R → Validator A D R → TxActions A D R
  unfolding push
  with_script_redeem tx output redeemer script =
      push tx (redeem_script_output output redeemer script)

  unfoldable pub with_specific_input : TxActions A D R → Output D → TxActions A D R
  unfolding push
  with_specific_input tx input = push tx (specific_input input)

  unfoldable pub with_valid_range_secs : TxActions A D R → Option ℤ → Option ℤ → TxActions A D R
  with_valid_range_secs tx lower upper = record tx { valid_range = (lower, upper) }

-- The outputs for wallets so far, by owner.
abbrev pub OutputMap : Type 0
OutputMap = HashMap String Values

pub pay : OutputMap → String → PolicyId → ℕ → OutputMap
pay output_map owner policy_id amount = elim (get owner output_map) [
  | some values ↦ insert owner (add_one_value values policy_id amount) output_map
  | none ↦ insert owner (add_one_value empty policy_id amount) output_map
]

unfoldable pub nested_map_to_vecs : OutputMap → List (String × List (PolicyId × ℕ))
nested_map_to_vecs [] = []
nested_map_to_vecs ((addr, values) ∷ m) = (addr, vec values) ∷ nested_map_to_vecs m

module _ {A : Type 0} ⦃lib : AddressLib A⦄ where
  unfoldable pub add_amount_to_nested_map : OutputMap → ℕ → A → PolicyId → Outcome Error OutputMap
  unfolding pay
  add_amount_to_nested_map output_map amount owner policy_id = do
    owner_str ← expect (lib.to_bech32 owner)
    ok (pay output_map owner_str policy_id amount)

unfoldable pub create_outputs_for :
    {A D : Type 0} (lib : AddressLib A)
    → List (String × List (PolicyId × ℕ))
    → Outcome Error (List (UnbuiltOutput D))
create_outputs_for lib [] = ok []
create_outputs_for lib ((owner, val_vec) ∷ values) = do
  let sum = add_entries empty val_vec
  addr ← ok_or (lib.from_bech32 owner) Error.address
  output ← unbuilt_wallet ⦃lib = lib⦄ addr sum
  outputs ← create_outputs_for lib values
  ok (output ∷ outputs)

-- The five collections that `to_unbuilt_tx` fills.
pub record Building (A D R : Type 0) : Type 0 where
  pub min_output_values : HashMap String Values
  pub minting : List (Minting A R)
  pub script_inputs : List (RedemptionDetails A D R)
  pub specific_outputs : List (UnbuiltOutput D)
  pub specific_wallet_inputs : List (Output D)

module _ {A D R : Type 0} ⦃lib : AddressLib A⦄ where
  -- The body of the loop.
  pub build_action : Building A D R → Action A D R → Outcome Error (Building A D R)
  unfolding add_amount_to_nested_map
  build_action b (transfer amount recipient policy) = do
    m ← add_amount_to_nested_map b.min_output_values amount recipient policy
    ok (record b { min_output_values = m })
  build_action b (mint amount asset_name redeemer policy) =
      ok (record b { minting = b.minting ++ (amount, asset_name, redeemer, policy) ∷ [] })
  build_action b (init_script datum values address) = do
    owner ← expect (lib.to_bech32 address)
    ok (record b { specific_outputs = b.specific_outputs ++ validator owner values datum ∷ [] })
  build_action b (redeem_script_output output redeemer script) =
      ok (record b { script_inputs = b.script_inputs ++ (output, redeemer, script) ∷ [] })
  build_action b (specific_input input) =
      ok (record b { specific_wallet_inputs = b.specific_wallet_inputs ++ input ∷ [] })

  unfoldable pub build_actions :
      Building A D R → List (Action A D R) → Outcome Error (Building A D R)
  unfolding build_action
  build_actions b [] = ok b
  build_actions b (action ∷ actions) = build_action b action >>= λ b'. build_actions b' actions

  unfoldable pub to_unbuilt_tx : TxActions A D R → Outcome Error (UnbuiltTransaction A D R)
  unfolding build_actions nested_map_to_vecs create_outputs_for
  to_unbuilt_tx tx = do
    let start : Building A D R = record {
      min_output_values = [];
      minting = [];
      script_inputs = [];
      specific_outputs = [];
      specific_wallet_inputs = [];
    }
    b ← build_actions start tx.actions
    outputs ← create_outputs_for lib (nested_map_to_vecs b.min_output_values)
    ok (record {
      script_version = tx.script_version;
      script_inputs = b.script_inputs;
      unbuilt_outputs = outputs ++ b.specific_outputs;
      minting = b.minting;
      specific_wallet_inputs = b.specific_wallet_inputs;
      valid_range = tx.valid_range;
    })

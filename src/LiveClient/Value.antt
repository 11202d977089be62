-- ===== src/LiveClient/Value.antt =====
-- Bags of tokens and the values of `cardano_multiplatform_lib`
-- (src/trireme_ledger_client/cml_client/issuance_helpers.rs). The maps in sorted order are association
-- lists here, as hash maps are. `from_utf8` is the standard library's.
use naumachia.Prelude.{
  ℕ, Option, none, some, List, [], ◌∷◌, String, string_eq, option_eq, Outcome, ok, ◌>>=◌, expect,
  ok_or,
}
use naumachia.HashMap.{HashMap, get, insert, erase}
use naumachia.Errors.{LedgerClientError, CmlLcError, failed_to_issue_tx, bad_utf8}
use naumachia.PolicyId.{PolicyId, lovelace, native_token, new_native_token}
use naumachia.Values.{Values, empty, add_one_value}
use naumachia.Scripts.PlutusData.Convert.{as_bytes}
use naumachia.LiveClient.Cml.{ValueLib}

abbrev pub NauAssets : Type 0
NauAssets = HashMap String (HashMap (Option String) ℕ)

-- The least amount of lovelace, where a bag lists none.
abbrev pub default_ada : ℕ
default_ada = 1155080

unfoldable pub add_asset : String → Option String → ℕ → NauAssets → NauAssets
add_asset id asset_name amount nau_assets = elim (get id nau_assets) [
  | some inner ↦ insert id (insert asset_name amount inner) (erase id nau_assets)
  | none ↦ insert id (insert asset_name amount []) nau_assets
]

-- The first loop: the lovelace, and the assets by policy.
unfoldable pub split_entries : List (PolicyId × ℕ) → ℕ → NauAssets → ℕ × NauAssets
unfolding add_asset
split_entries [] ada nau_assets = (ada, nau_assets)
split_entries ((lovelace, amount) ∷ entries) ada nau_assets =
    split_entries entries amount nau_assets
split_entries ((native_token id name, amount) ∷ entries) ada nau_assets =
    split_entries entries ada (add_asset id name amount nau_assets)

module _ (lib : ValueLib) where
  unfoldable pub name_bytes_of : Option String → List ℕ
  unfolding as_bytes
  name_bytes_of (some inner) = as_bytes inner
  name_bytes_of none = []

  unfoldable pub cml_assets : List (Option String × ℕ) → lib.Assets → Outcome CmlLcError lib.Assets
  unfolding name_bytes_of
  cml_assets [] assets = ok assets
  cml_assets ((name, amount) ∷ entries) assets =
      expect (lib.new_name (name_bytes_of name)) >>= λ key.
      cml_assets entries (lib.insert_asset key amount assets)

  unfoldable pub cml_multi_asset :
      List (String × HashMap (Option String) ℕ) → lib.MultiAsset → Outcome CmlLcError lib.MultiAsset
  unfolding cml_assets
  cml_multi_asset [] multi_asset = ok multi_asset
  cml_multi_asset ((id, assets) ∷ entries) multi_asset =
      cml_assets assets lib.no_assets >>= λ inner. expect (lib.hash_from_hex id) >>= λ policy_id.
      cml_multi_asset entries (lib.insert_policy policy_id inner multi_asset)

  -- `CMLValue::try_from`
  unfoldable pub cml_value : Values → Outcome CmlLcError lib.Value
  unfolding split_entries cml_multi_asset
  cml_value vals =
      let (ada, nau_assets) = split_entries vals.values default_ada [] in
      cml_multi_asset nau_assets lib.no_policies >>= λ multi_asset.
      ok (lib.set_multiasset multi_asset (lib.new_value ada))

  module _ (from_utf8 : List ℕ → Option String) where
    unfoldable pub add_named :
        lib.ScriptHash → lib.Assets → List lib.AssetName → Values → Outcome LedgerClientError Values
    unfolding add_one_value
    add_named id assets [] values = ok values
    add_named id assets (asset ∷ names) values = elim (lib.asset_amount assets asset) [
      | none ↦ add_named id assets names values
      | some amt ↦
          ok_or (from_utf8 (lib.name_bytes asset)) (failed_to_issue_tx bad_utf8) >>= λ asset_text.
          add_named id assets names
            (add_one_value values (new_native_token (lib.hash_text id) (some asset_text)) amt)
    ]

    unfoldable pub add_policies :
        lib.MultiAsset → List lib.ScriptHash → Values → Outcome LedgerClientError Values
    unfolding add_named
    add_policies multiasset [] values = ok values
    add_policies multiasset (id ∷ ids) values = elim (lib.assets_of multiasset id) [
      | none ↦ add_policies multiasset ids values
      | some assets ↦ add_named id assets (lib.asset_names assets) values >>= λ values'.
          add_policies multiasset ids values'
    ]

    unfoldable pub as_nau_values : lib.Value → Outcome LedgerClientError Values
    unfolding add_policies add_one_value
    as_nau_values cml_value =
        let values = add_one_value empty lovelace (lib.coin cml_value) in
        elim (lib.multiasset cml_value) [
          | none ↦ ok values
          | some multiasset ↦ add_policies multiasset (lib.policies multiasset) values
        ]

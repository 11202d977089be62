-- ===== src/CheckingAccount/Lookups.antt =====
-- The accounts of the signer (sample-dApps/checking_account/src/lookups.rs). `F` is the type f64, and
-- `in_ada` divides an amount by a million in it.
use naumachia.Prelude.{
  ℕ, Bool, false, ◌&&◌, Option, none, some, List, [], ◌∷◌, String, if◌then◌else◌, ◌==◌, list_eq,
  nat_eq, string_eq, option_eq, Outcome, ok, map_err, expect,
}
use naumachia.Prelude.{◌>>=◌ as bind}
use naumachia.Prelude.Int.{ℤ}
use naumachia.HashMap.{HashMap}
use naumachia.Address.{AddressLib}
use naumachia.Errors.{ScLogicError, validator_script}
use naumachia.Effects.{Run, ◌>>=◌, call, lift, return}
use naumachia.PolicyId.{PolicyId, lovelace, id, asset_name}
use naumachia.Values.{Values, get_value}
use naumachia.Scripts.Context.{PubKeyHash, pub_key_hash_from_address_if_available}
use naumachia.Output.{Output, typed_datum}
use naumachia.TestLedger.TxId.{HexLib}
use naumachia.Logic.{endpoint_lc, endpoint_script}
use naumachia.CheckingAccount.{CheckingAccountScripts, Client, checking_account_nft_asset_name}
use naumachia.CheckingAccount.Datum.{CheckingAccountDatums, checking_account, allowed_puller}

pub record AccountPuller : Type 0 where
  pub puller : PubKeyHash
  pub amount_lovelace : ℕ
  pub period : ℤ
  pub next_pull : ℤ

pub record Account (F : Type 0) : Type 0 where
  pub balance_ada : F
  pub nft : Option String
  pub pullers : List AccountPuller

-- The filter of the outputs.
unfoldable pub is_account_of : PubKeyHash → Option CheckingAccountDatums → Bool
is_account_of me (some (checking_account inner)) = inner.owner.bytes == me.bytes
is_account_of me _ = false

unfoldable pub accounts_of :
    PubKeyHash → List (Output CheckingAccountDatums) → List (Output CheckingAccountDatums)
unfolding is_account_of typed_datum
accounts_of me [] = []
accounts_of me (output ∷ outputs) =
    if is_account_of me (typed_datum output)
    then output ∷ accounts_of me outputs
    else accounts_of me outputs

-- One token with the name of an account's NFT.
unfoldable pub is_account_nft : PolicyId → ℕ → Bool
unfolding asset_name
is_account_nft policy_id amt = elim (asset_name policy_id) [
  | some name ↦ (amt == 1) && (name == checking_account_nft_asset_name)
  | none ↦ false
]

unfoldable pub find_nft : HashMap PolicyId ℕ → Option String
unfolding is_account_nft id
find_nft [] = none
find_nft ((policy_id, amt) ∷ values) =
    if is_account_nft policy_id amt then some (id policy_id) else find_nft values

-- The closure of `find_pullers_for_nft`; an output with no typed datum panics.
unfoldable pub puller_of :
    HexLib → String → Output CheckingAccountDatums → Outcome ScLogicError (Option AccountPuller)
unfolding typed_datum
puller_of hex nft_policy_id output = bind (expect (typed_datum output)) λ datum. elim datum [
  | checking_account _ ↦ ok none
  | allowed_puller inner ↦ bind (expect (hex.decode nft_policy_id)) λ nft_bytes.
      if inner.checking_account_nft == nft_bytes
      then ok (
          some (record {
            puller = inner.puller;
            amount_lovelace = inner.amount_lovelace;
            period = inner.period;
            next_pull = inner.next_pull;
          }))
      else ok none
]

unfoldable pub pullers_of :
    HexLib
    → String
    → List (Output CheckingAccountDatums)
    → Outcome ScLogicError (List AccountPuller)
unfolding puller_of
pullers_of hex nft_policy_id [] = ok []
pullers_of hex nft_policy_id (output ∷ outputs) = bind (puller_of hex nft_policy_id output) λ first.
    bind (pullers_of hex nft_policy_id outputs)
      λ rest. ok (elim first [ none ↦ rest | some account_puller ↦ account_puller ∷ rest ])

module _ {A S F : Type 0} ⦃lib : AddressLib A⦄ (hex : HexLib) (scripts : CheckingAccountScripts A)
    (client : Client A S) (in_ada : ℕ → F) (no_ada : F) where
  unfoldable pub find_pullers_for_nft : String → Run S ScLogicError (List AccountPuller)
  unfolding pullers_of
  find_pullers_for_nft nft_policy_id = do
    network ← call endpoint_lc client.network
    validator ← lift (map_err validator_script scripts.pull_validator)
    address ← lift (map_err endpoint_script (validator.address network))
    outputs ← call endpoint_lc (client.all_outputs_at_address address)
    lift (pullers_of hex nft_policy_id outputs)

  unfoldable pub pullers_of_account : Option String → Run S ScLogicError (List AccountPuller)
  unfolding find_pullers_for_nft
  pullers_of_account (some nft) = find_pullers_for_nft nft
  pullers_of_account none = return []

  unfoldable pub balance_of : Values → F
  unfolding get_value
  balance_of values = elim (get_value values lovelace) [ some n ↦ in_ada n | none ↦ no_ada ]

  unfoldable pub list_accounts :
      List (Output CheckingAccountDatums) → Run S ScLogicError (List (Account F))
  unfolding find_nft balance_of pullers_of_account
  list_accounts [] = return []
  list_accounts (output ∷ outputs) = do
    let balance = balance_of output.values
    let maybe_nft = find_nft output.values.values
    pullers ← pullers_of_account maybe_nft
    accounts ← list_accounts outputs
    return (record { balance_ada = balance; nft = maybe_nft; pullers = pullers } ∷ accounts)

  -- The address is printed, which takes its bech32 form.
  unfoldable pub get_my_accounts : Run S ScLogicError (List (Account F))
  unfolding accounts_of list_accounts
  get_my_accounts = do
    network ← call endpoint_lc client.network
    my_address ← call endpoint_lc client.signer_base_address
    my_pubkey_hash ← lift (expect (pub_key_hash_from_address_if_available my_address))
    validator ← lift (map_err endpoint_script scripts.checking_account_validator)
    checking_account_address ← lift (map_err endpoint_script (validator.address network))
    _ ← lift (expect (lib.to_bech32 checking_account_address))
    outputs ← call endpoint_lc (client.all_outputs_at_address checking_account_address)
    list_accounts (accounts_of my_pubkey_hash outputs)

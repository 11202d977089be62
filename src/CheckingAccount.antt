-- ===== src/CheckingAccount.antt =====
-- The checking account dApp (sample-dApps/checking_account/src): an account is an output of its
-- validator, with an NFT; a puller may take an amount from it every period. The compiled scripts
-- are a parameter.
pub mod Datum
pub mod Owner
pub mod Pull
pub mod Amounts
pub mod Withdrawals
pub mod Pulls
pub mod Lookups
pub mod Dispatch
use naumachia.Prelude.{ℕ, List, String, Option, Outcome}
use naumachia.Errors.{ScriptError}
use naumachia.Scripts.{Validator, MintingPolicy}
use naumachia.Scripts.Context.{PubKeyHash}
use naumachia.Logic.{OutputReference}
use naumachia.Transaction.{TxActions}
use naumachia.LedgerClient.{LedgerClient}
use Datum.{CheckingAccountDatums}

-- `CHECKING_ACCOUNT_NFT_ASSET_NAME` and `SPEND_TOKEN_ASSET_NAME`
abbrev pub checking_account_nft_asset_name : String
checking_account_nft_asset_name = "CHECKING ACCOUNT"

abbrev pub spend_token_asset_name : String
spend_token_asset_name = "SPEND TOKEN"

-- What the compiled scripts give: validators, and policies that are applied to their parameters.
-- `None` stands for the `Err` of an application. The spend token's parameters are the id of the NFT's
-- policy and the owner.
pub record CheckingAccountScripts (A : Type 0) : Type 0 where
  pub checking_account_validator :
      Outcome ScriptError (Validator A CheckingAccountDatums (Unit {0}))
  pub pull_validator : Outcome ScriptError (Validator A CheckingAccountDatums (Unit {0}))
  pub spend_token_policy :
      Outcome ScriptError (List ℕ → PubKeyHash → Option (MintingPolicy A (Unit {0})))
  pub one_shot : Outcome ScriptError (OutputReference → Option (MintingPolicy A (Unit {0})))

abbrev pub Actions : Type 0 → Type 0
Actions A = TxActions A CheckingAccountDatums (Unit {0})

abbrev pub Client : Type 0 → Type 0 → Type 0
Client A S = LedgerClient A CheckingAccountDatums (Unit {0}) S

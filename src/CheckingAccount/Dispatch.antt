-- ===== src/CheckingAccount/Dispatch.antt =====
-- The endpoints and lookups of the checking account (sample-dApps/checking_account/src/lib.rs).
use naumachia.Prelude.{ℕ, List, String}
use naumachia.Prelude.Int.{ℤ}
use naumachia.Address.{AddressLib}
use naumachia.Errors.{ScLogicError, OutputId}
use naumachia.Effects.{Run}
use naumachia.Scripts.Context.{PubKeyHash}
use naumachia.TestLedger.TxId.{HexLib}
use naumachia.SmartContract.{ScLogic}
use naumachia.CheckingAccount.{CheckingAccountScripts, Actions, Client}
use naumachia.CheckingAccount.Datum.{CheckingAccountDatums}
use naumachia.CheckingAccount.Owner.{
  init_account, add_puller, remove_puller, fund_account, withdraw_from_account,
}
use naumachia.CheckingAccount.Pull.{pull_from_account}
use naumachia.CheckingAccount.Lookups.{Account, get_my_accounts}

pub data CheckingAccountEndpoints : Type 0 where
  init_account_with : ℕ → CheckingAccountEndpoints
  -- The NFT, the puller, the amount, the period and the first pull.
  add_puller_to : String → PubKeyHash → ℕ → ℤ → ℤ → CheckingAccountEndpoints
  remove_puller_at : OutputId → CheckingAccountEndpoints
  fund_account_at : OutputId → ℕ → CheckingAccountEndpoints
  withdraw_from_account_at : OutputId → ℕ → CheckingAccountEndpoints
  -- The puller's output, the account's and the amount.
  pull_from_checking_account : OutputId → OutputId → ℕ → CheckingAccountEndpoints

pub data CheckingAccountLookups : Type 0 where
  my_accounts : CheckingAccountLookups

module _ {A S F : Type 0} ⦃lib : AddressLib A⦄ (hex : HexLib) (scripts : CheckingAccountScripts A)
    (in_ada : ℕ → F) (no_ada : F) where
  unfoldable pub handle_endpoint :
      Client A S → CheckingAccountEndpoints → Run S ScLogicError (Actions A)
  unfolding init_account add_puller remove_puller fund_account withdraw_from_account
      pull_from_account
  handle_endpoint client (init_account_with starting_lovelace) =
      init_account hex scripts client starting_lovelace
  handle_endpoint client (add_puller_to nft puller amount period next_pull) =
      add_puller hex scripts client nft puller amount period next_pull
  handle_endpoint client (remove_puller_at output_id) = remove_puller scripts client output_id
  handle_endpoint client (fund_account_at output_id fund_amount) =
      fund_account scripts client output_id fund_amount
  handle_endpoint client (withdraw_from_account_at output_id withdraw_amount) =
      withdraw_from_account scripts client output_id withdraw_amount
  handle_endpoint client (pull_from_checking_account puller_id account_id amount) =
      pull_from_account scripts client puller_id account_id amount

  unfoldable pub lookup_accounts :
      Client A S → CheckingAccountLookups → Run S ScLogicError (List (Account F))
  unfolding get_my_accounts
  lookup_accounts client my_accounts = get_my_accounts hex scripts client in_ada no_ada

  -- The implementation of the trait.
  unfoldable pub checking_account_logic :
      ScLogic CheckingAccountEndpoints CheckingAccountLookups
        (List (Account F))
        A
        CheckingAccountDatums
        (Unit {0})
        S
  unfolding handle_endpoint lookup_accounts
  checking_account_logic = record { handle_endpoint = handle_endpoint; lookup = lookup_accounts }

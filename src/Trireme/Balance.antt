-- ===== src/Trireme/Balance.antt =====
-- The balance of the signer (trireme/src/logic.rs, trireme/src/balance.rs): a logic without endpoints,
-- whose lookups the command line runs. The division of an amount into Ada, for display, is left out.
pub mod Agree
use naumachia.Prelude.{ℕ, Eq, none, some, List, [], ◌∷◌, String, Outcome, ok, err, panic}
use naumachia.PolicyId.{PolicyId, lovelace, native_token}
use naumachia.Values.{vec}
use naumachia.Output.{from_outputs}
use naumachia.Errors.{ScLogicError, trireme}
use naumachia.Effects.{Run, ◌>>=◌, call, lift, return, raised}
use naumachia.LedgerClient.{LedgerClient}
use naumachia.TestLedger.Issue.{sum_policy}
use naumachia.SmartContract.{ScLogic, run_lookup}
use naumachia.Logic.{lookup_lc}
use naumachia.LiveClient.Cml.{ValueLib, CmlLib}
use naumachia.Trireme.Host.{Host}
use naumachia.Trireme.ToClient.{
  Platform, get_trireme_ledger_client_from_file, trireme_ledger_client,
}
use naumachia.Trireme.Environment.{CliError, naumachia_error}

pub data TriremeLookups : Type 0 where
  lovelace_balance_of_signer total_balance_of_signer : TriremeLookups

pub data TriremeResponses : Type 0 where
  lovelace_balance : ℕ → TriremeResponses
  total_balance : List (PolicyId × ℕ) → TriremeResponses

module _ {A D R S : Type 0} (client : LedgerClient A D R S) where
  -- `balance_at_address` is the default method of the trait.
  unfoldable pub impl_lovelace_balance : Run S ScLogicError TriremeResponses
  unfolding sum_policy
  impl_lovelace_balance = do
    address ← call lookup_lc client.signer_base_address
    outputs ← call lookup_lc (client.all_outputs_at_address address)
    return (lovelace_balance (sum_policy lovelace 0 outputs))

  unfoldable pub impl_total_balance : Run S ScLogicError TriremeResponses
  unfolding from_outputs vec
  impl_total_balance = do
    address ← call lookup_lc client.signer_base_address
    outputs ← call lookup_lc (client.all_outputs_at_address address)
    return (total_balance (vec (from_outputs outputs)))

  unfoldable pub lookup_balance : TriremeLookups → Run S ScLogicError TriremeResponses
  unfolding impl_lovelace_balance impl_total_balance
  lookup_balance lovelace_balance_of_signer = impl_lovelace_balance
  lookup_balance total_balance_of_signer = impl_total_balance

-- `TriremeLogic`; its `handle_endpoint` is `todo!`.
unfoldable pub trireme_logic :
    {A D R S : Type 0} → ScLogic (Unit {0}) TriremeLookups TriremeResponses A D R S
unfolding lookup_balance
trireme_logic = record {
  handle_endpoint = λ client endpoint. lift panic;
  lookup = λ client query. lookup_balance client query;
}

-- The native tokens of a balance, with the name of each; no name is the empty one.
unfoldable pub native_assets : List (PolicyId × ℕ) → List (String × String × ℕ)
native_assets [] = []
native_assets ((lovelace, amt) ∷ assets) = native_assets assets
native_assets ((native_token id none, amt) ∷ assets) = (id, "", amt) ∷ native_assets assets
native_assets ((native_token id (some name), amt) ∷ assets) = (id, name, amt) ∷ native_assets assets

-- The last amount of Lovelace.
unfoldable pub ada_of : ℕ → List (PolicyId × ℕ) → ℕ
ada_of lovelaces [] = lovelaces
ada_of lovelaces ((lovelace, amt) ∷ assets) = ada_of amt assets
ada_of lovelaces ((native_token _ _, _) ∷ assets) = ada_of lovelaces assets

-- What `ada_balance_impl` and `balance_impl` make of an answer.
unfoldable pub ada_balance : TriremeResponses → Outcome CliError ℕ
ada_balance (lovelace_balance lovelaces) = ok lovelaces
ada_balance (total_balance _) = err (naumachia_error trireme)

unfoldable pub balances : TriremeResponses → Outcome CliError (ℕ × List (String × String × ℕ))
unfolding native_assets ada_of
balances (total_balance assets) = ok (ada_of 0 assets, native_assets assets)
balances (lovelace_balance _) = err (naumachia_error trireme)

module _ {V : ValueLib} {lib : CmlLib V} {Bip32 A D R : Type 0} ⦃d : Eq D⦄
    (p : Platform lib Bip32 A D R) where
  unfoldable pub run_trireme_lookup : TriremeLookups → Run Host CliError TriremeResponses
  unfolding get_trireme_ledger_client_from_file trireme_ledger_client trireme_logic run_lookup
  run_trireme_lookup query = raised naumachia_error (do
    ledger_client ← get_trireme_ledger_client_from_file p
    run_lookup ⦃lib = p.addresses⦄ trireme_logic (trireme_ledger_client p ledger_client) query)

  unfoldable pub ada_balance_impl : Run Host CliError ℕ
  unfolding run_trireme_lookup ada_balance
  ada_balance_impl = do
    response ← run_trireme_lookup lovelace_balance_of_signer
    lift (ada_balance response)

  unfoldable pub balance_impl : Run Host CliError (ℕ × List (String × String × ℕ))
  unfolding run_trireme_lookup balances
  balance_impl = do response ← run_trireme_lookup total_balance_of_signer; lift (balances response)

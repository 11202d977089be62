-- ===== src/Minting.antt =====
-- The minting dApps (sample-dApps/free-minting-contract/src, sample-dApps/mint_nft/src). The compiled
-- policies are parameters.
pub mod OneShot
use naumachia.Prelude.{ℕ, some, Option, Outcome, panic, ok_or, map_err}
use naumachia.Errors.{
  ScriptError, failed_to_construct, ScLogicError, policy_script, input_not_found,
}
use naumachia.Effects.{Run, ◌>>=◌, call, lift, return}
use naumachia.Scripts.{MintingPolicy}
use naumachia.Output.{Output}
use naumachia.Transaction.{TxActions, v1, v2, tx_actions, with_mint, with_specific_input}
use naumachia.LedgerClient.{LedgerClient}
use naumachia.SmartContract.{ScLogic}
use naumachia.Logic.{OutputReference, output_reference, endpoint_lc, endpoint_dapp}
use naumachia.CheckingAccount.Owner.{last_above_min}

abbrev pub UnitActions : Type 0 → Type 0
UnitActions A = TxActions A (Unit {0}) (Unit {0})

abbrev pub UnitClient : Type 0 → Type 0 → Type 0
UnitClient A S = LedgerClient A (Unit {0}) (Unit {0}) S

pub data FreeMintingEndpoints : Type 0 where
  mint : ℕ → FreeMintingEndpoints

pub data MintNftEndpoints : Type 0 where
  mint : MintNftEndpoints

module _ {A S : Type 0} (get_policy : Outcome ScriptError (MintingPolicy A (Unit {0}))) where
  unfoldable pub mint_freely :
      UnitClient A S → FreeMintingEndpoints → Run S ScLogicError (UnitActions A)
  unfolding with_mint
  mint_freely client (FreeMintingEndpoints.mint amount) = do
    policy ← lift (map_err policy_script get_policy)
    return (with_mint (tx_actions v1) amount (some "FREEEEEE") tt policy)

  -- A lookup is `unimplemented!`.
  unfoldable pub free_minting_logic :
      ScLogic FreeMintingEndpoints (Unit {0}) (Unit {0}) A (Unit {0}) (Unit {0}) S
  unfolding mint_freely
  free_minting_logic = record {
    handle_endpoint = mint_freely;
    lookup = λ client query s. (panic, s);
  }

module _ {A S : Type 0}
    (get_parameterized_script : Outcome ScriptError
      (OutputReference → Option (MintingPolicy A (Unit {0})))) where
  unfoldable pub select_any_above_min : UnitClient A S → Run S ScLogicError (Output (Unit {0}))
  unfolding last_above_min
  select_any_above_min client = do
    me ← call endpoint_lc client.signer_base_address
    outputs ← call endpoint_lc (client.all_outputs_at_address me)
    lift (ok_or (last_above_min outputs) (endpoint_dapp input_not_found))

  unfoldable pub impl_mint : UnitClient A S → Run S ScLogicError (UnitActions A)
  unfolding select_any_above_min output_reference with_mint with_specific_input
  impl_mint client = do
    my_input ← select_any_above_min client
    param_script ← lift (map_err policy_script get_parameterized_script)
    policy ←
        lift (ok_or (param_script (output_reference my_input)) (policy_script failed_to_construct))
    let minting = with_mint (tx_actions v2) 1 (some "OneShot") tt policy
    return (with_specific_input minting my_input)

  unfoldable pub mint_nft_logic :
      ScLogic MintNftEndpoints (Unit {0}) (Unit {0}) A (Unit {0}) (Unit {0}) S
  unfolding impl_mint
  mint_nft_logic = record {
    handle_endpoint = λ client endpoint. impl_mint client;
    lookup = λ client query. return tt;
  }

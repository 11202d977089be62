-- ===== src/Game.antt =====
-- The guessing game (sample-dApps/game-contract/src): an amount is locked under the hash of a secret.
-- The compiled script and the hash are parameters.
use naumachia.Prelude.{ℕ, List, String, take, Outcome, ok, err, Option, none, some}
use naumachia.Errors.{
  ScriptError, datum_deserialization, redeemer_deserialization, ScLogicError, OutputId,
}
use naumachia.Effects.{Run, ◌>>=◌, call, lift, return}
use naumachia.PolicyId.{lovelace}
use naumachia.Values.{empty, add_one_value}
use naumachia.Scripts.{Validator}
use naumachia.Scripts.PlutusData.{PlutusData, bounded_bytes}
use naumachia.Scripts.PlutusData.Convert.{as_bytes}
use naumachia.Output.{Output}
use naumachia.Transaction.{TxActions, v2, tx_actions, with_script_init, with_script_redeem}
use naumachia.LedgerClient.{LedgerClient}
use naumachia.SmartContract.{ScLogic}
use naumachia.Logic.{lookup_lc, found_output, script_at}

pub record HashedString : Type 0 where
  pub inner : List ℕ

pub record ClearString : Type 0 where
  pub inner : String

-- `HashedString::new`, with the hash `sha256` of the crate `sha2`.
unfoldable pub hashed_string : (List ℕ → List ℕ) → String → HashedString
unfolding as_bytes
hashed_string sha256 unhashed = record { inner = sha256 (as_bytes unhashed) }

unfoldable pub hashed_data : HashedString → PlutusData
hashed_data hs = bounded_bytes hs.inner

unfoldable pub hashed_of_data : PlutusData → Outcome ScriptError HashedString
hashed_of_data (bounded_bytes inner) = ok (record { inner = inner })
hashed_of_data _ = err datum_deserialization

unfoldable pub clear_data : ClearString → PlutusData
unfolding as_bytes
clear_data cs = bounded_bytes (as_bytes cs.inner)

-- `from_utf8` is that of the standard library, with `None` for an error.
unfoldable pub clear_of_data :
    (List ℕ → Option String) → PlutusData → Outcome ScriptError ClearString
clear_of_data from_utf8 (bounded_bytes bytes) = elim (from_utf8 bytes) [
  | some inner ↦ ok (record { inner = inner })
  | none ↦ err redeemer_deserialization
]
clear_of_data from_utf8 _ = err redeemer_deserialization

pub data GameEndpoints : Type 0 where
  lock : ℕ → String → GameEndpoints
  guess : OutputId → String → GameEndpoints

pub data GameLookups : Type 0 where
  list_active_contracts : ℕ → GameLookups

module _ {A S : Type 0} (sha256 : List ℕ → List ℕ)
    (script : Outcome ScriptError (Validator A HashedString ClearString))
    (client : LedgerClient A HashedString ClearString S) where
  unfoldable pub impl_lock : ℕ → String → Run S ScLogicError (TxActions A HashedString ClearString)
  unfolding add_one_value with_script_init hashed_string
  impl_lock amount secret = do
    (_, address) ← script_at client script
    let values = add_one_value empty lovelace amount
    return (with_script_init (tx_actions v2) (hashed_string sha256 secret) values address)

  unfoldable pub impl_guess :
      OutputId → String → Run S ScLogicError (TxActions A HashedString ClearString)
  unfolding with_script_redeem
  impl_guess output_id guessed = do
    (validator, address) ← script_at client script
    outputs ← call lookup_lc (client.all_outputs_at_address address)
    output ← lift (found_output output_id outputs)
    return (with_script_redeem (tx_actions v2) output (record { inner = guessed }) validator)

  unfoldable pub impl_list_active_contracts : ℕ → Run S ScLogicError (List (Output HashedString))
  impl_list_active_contracts count = do
    (_, address) ← script_at client script
    outputs ← call lookup_lc (client.outputs_at_address address count)
    return (take count outputs)

module _ {A S : Type 0} (sha256 : List ℕ → List ℕ)
    (script : Outcome ScriptError (Validator A HashedString ClearString)) where
  unfoldable pub handle_endpoint :
      LedgerClient A HashedString ClearString S
      → GameEndpoints
      → Run S ScLogicError (TxActions A HashedString ClearString)
  unfolding impl_lock impl_guess
  handle_endpoint client (lock amount secret) = impl_lock sha256 script client amount secret
  handle_endpoint client (guess output_id guessed) =
      impl_guess sha256 script client output_id guessed

  unfoldable pub lookup_contracts :
      LedgerClient A HashedString ClearString S
      → GameLookups
      → Run S ScLogicError (List (Output HashedString))
  unfolding impl_list_active_contracts
  lookup_contracts client (list_active_contracts count) =
      impl_list_active_contracts sha256 script client count

  unfoldable pub game_logic :
      ScLogic GameEndpoints GameLookups (List (Output HashedString)) A HashedString ClearString S
  unfolding handle_endpoint lookup_contracts
  game_logic = record { handle_endpoint = handle_endpoint; lookup = lookup_contracts }

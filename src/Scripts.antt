-- ===== src/Scripts.antt =====
-- Scripts as the framework sees them (src/scripts.rs): what a validator and a minting policy answer
-- is a parameter, the compiled code behind them being run by a library.
pub mod PlutusData
pub mod Context
pub mod Compiled
use naumachia.Prelude.{ℕ, List, String, Outcome}
use naumachia.Prelude.Int.{ℤ, pos}
use naumachia.Address.{Network}
use naumachia.Errors.{ScriptError}
use Context.{TxContext}

pub record ExecutionCost : Type 0 where
  pub mem : ℤ
  pub cpu : ℤ

-- `ExecutionCost::default`
unfoldable pub no_cost : ExecutionCost
no_cost = record { mem = pos 0; cpu = pos 0 }

-- The trait `Validator`: a script that locks outputs at its address.
pub record Validator (Address D R : Type 0) : Type 0 where
  pub execute : D → R → TxContext Address → Outcome ScriptError ExecutionCost
  pub address : Network → Outcome ScriptError Address
  pub script_hex : Outcome ScriptError String

-- The trait `MintingPolicy`: a script that constrains minting.
pub record MintingPolicy (Address R : Type 0) : Type 0 where
  pub execute : R → TxContext Address → Outcome ScriptError ExecutionCost
  pub id : Outcome ScriptError String
  pub script_hex : Outcome ScriptError String

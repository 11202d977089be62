-- ===== src/TestLedger/TxId.antt =====
-- The ids of the outputs of one transaction, and the crate `hex`
-- (src/ledger_client/test_ledger_client.rs). The random hash is an argument.
use naumachia.Prelude.{ℕ, Option, List, [], ◌∷◌, String, add_u64, Outcome, ok, ◌>>=◌, expect}
use naumachia.Address.{AddressLib}
use naumachia.Values.{Values}
use naumachia.Output.{Output, UnbuiltOutput, wallet, validator, new_wallet, new_validator}

-- What the code uses of the crate `hex`.
pub record HexLib : Type 0 where
  pub encode : List ℕ → String
  pub decode : String → Option (List ℕ)

pub record TxIdConstructionCtx : Type 0 where
  pub tx_hash : List ℕ
  pub next_index : ℕ

-- `TxIdConstructionCtx::new`
unfoldable pub new_ctx : List ℕ → TxIdConstructionCtx
new_ctx hash = record { tx_hash = hash; next_index = 0 }

unfoldable pub advance_index : TxIdConstructionCtx → TxIdConstructionCtx
advance_index c = record c { next_index = add_u64 c.next_index 1 }

module _ {A D E : Type 0} (lib : AddressLib A) where
  unfoldable pub new_wallet_output : A → Values → TxIdConstructionCtx → Outcome E (Output D)
  unfolding new_wallet
  new_wallet_output addr vals c = new_wallet ⦃lib = lib⦄ c.tx_hash c.next_index addr vals

  unfoldable pub new_validator_output : A → Values → D → TxIdConstructionCtx → Outcome E (Output D)
  unfolding new_validator
  new_validator_output addr vals datum c =
      new_validator ⦃lib = lib⦄ c.tx_hash c.next_index addr vals datum

  -- The closure of `build_outputs`.
  unfoldable pub build_output : UnbuiltOutput D → TxIdConstructionCtx → Outcome E (Output D)
  unfolding new_wallet_output new_validator_output
  build_output (wallet owner values) c = do
    addr ← expect (lib.from_bech32 owner)
    new_wallet_output addr values c
  build_output (validator owner values datum) c = do
    addr ← expect (lib.from_bech32 owner)
    new_validator_output addr values datum c

  unfoldable pub build_outputs :
      List (UnbuiltOutput D) → TxIdConstructionCtx → Outcome E (List (Output D))
  unfolding build_output advance_index
  build_outputs [] c = ok []
  build_outputs (output ∷ unbuilt_outputs) c = do
    o ← build_output output c
    os ← build_outputs unbuilt_outputs (advance_index c)
    ok (o ∷ os)

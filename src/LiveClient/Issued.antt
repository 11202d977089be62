-- ===== src/LiveClient/Issued.antt =====
-- What a live ledger was sent, where a transaction was issued (src/trireme_ledger_client/cml_client.rs).
use naumachia.Prelude.{◌≡◌, some, List, String, Outcome, ok}
use naumachia.Prelude.{>>=-eq-ok as out-eq-ok}
use naumachia.Errors.{LedgerClientError}
use naumachia.Effects.{◌>>=◌, >>=-eq-ok, raised, Run}
use naumachia.Transaction.{UnbuiltTransaction, TransactionVersion, v1, v2}
use naumachia.LiveClient.Cml.{ValueLib, CmlLib}
use naumachia.LiveClient.Utxo.{Utxo, min_collateral_amt}
use naumachia.LiveClient.Collateral.{IsSmallest}
use naumachia.LiveClient.Issue.{CmlLedgerClient, as_failed_to_issue_tx}
use naumachia.LiveClient.Finished.{IsCosted}
use naumachia.LiveClient.Submit.{issue_by, prepare_v1, prepare_v2}

module _ {V : ValueLib} {lib : CmlLib V} {A D R S : Type 0} (c : CmlLedgerClient lib A D R S) where
  -- The builder, before the execution units are asked for.
  abbrev pub prepare :
      TransactionVersion
      → UnbuiltTransaction A D R
      → List (Utxo lib)
      → lib.Addr
      → Outcome LedgerClientError lib.Builder
  prepare v1 = prepare_v1 c
  prepare v2 = prepare_v2 c

  -- How a transaction came to be submitted: the signer's address and key, the outputs that the ledger
  -- has at that address, the collateral among them, the builder that has all of the transaction, the
  -- builder with its execution units, and what was built of it, signed with the key, and sent in a
  -- state `u`.
  pub record IsSubmitted (tx : UnbuiltTransaction A D R) (s : S) (id : String) (s' : S)
      : Type 0 where
    pub address : lib.Addr
    pub key : lib.Key
    pub utxos : List (Utxo lib)
    pub collateral : Utxo lib
    pub builder : lib.Builder
    pub with_units : lib.Builder
    pub signed : lib.Signed
    pub final : lib.Tx
    pub s1 : S
    pub s2 : S
    pub s3 : S
    pub u : S
    pub own_address : c.keys.base_addr s ≡ (ok address, s1)
    pub own_key : c.keys.private_key s1 ≡ (ok key, s2)
    pub own_utxos : c.ledger.get_all_utxos_for_addr address s2 ≡ (ok utxos, s3)
    pub smallest : IsSmallest min_collateral_amt utxos collateral
    pub prepared : prepare tx.script_version tx utxos address ≡ ok builder
    pub costed : IsCosted c address builder s3 with_units u
    pub built : lib.build with_units address ≡ some signed
    pub checked : lib.build_checked (lib.add_vkey key signed) ≡ some final
    pub sent : c.ledger.submit_transaction final u ≡ (ok id, s')

  abbrev after_utxos :
      UnbuiltTransaction A D R
      → lib.Addr
      → lib.Key
      → List (Utxo lib)
      → Run S LedgerClientError String
  after_utxos tx address key utxos = issue_by c tx.script_version tx utxos address key

  abbrev after_key : UnbuiltTransaction A D R → lib.Addr → lib.Key → Run S LedgerClientError String
  after_key tx address key =
      raised as_failed_to_issue_tx (c.ledger.get_all_utxos_for_addr address)
      >>= after_utxos tx address key

  abbrev after_address : UnbuiltTransaction A D R → lib.Addr → Run S LedgerClientError String
  after_address tx address =
      raised as_failed_to_issue_tx c.keys.private_key >>= after_key tx address

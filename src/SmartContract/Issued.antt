-- ===== src/SmartContract/Issued.antt =====
-- Endpoints on the fake ledger (src/smart_contract.rs,
-- src/ledger_client/test_ledger_client.rs).
use naumachia.Prelude.{◌≡◌, refl, List, [], ℕ, String, All, Eq, ok, map_err-ok, ap, sym}
use naumachia.Address.{AddressLib}
use naumachia.Errors.{Error}
use naumachia.Effects.{◌>>=◌, >>=-eq-ok, call, lift}
use naumachia.Scripts.PlutusData.{PlutusData}
use naumachia.Transaction.{TxActions, UnbuiltTransaction, to_unbuilt_tx}
use naumachia.LedgerClient.{LedgerClient}
use naumachia.TestLedger.InMemory.{InMemoryStorage, in_memory}
use naumachia.TestLedger.TxId.{HexLib}
use naumachia.TestLedger.Issue.{issue}
use naumachia.TestLedger.Accepted.{Redeems, Mints, issue-accepted}
use naumachia.TestLedger.Client.{test_ledger_client}
use mathlib.Core.Path.{ap₂}
use naumachia.TestLedger.Conservation.{issue-parts}
use naumachia.SmartContract.{ScLogic, actions_of, hit_endpoint}

module _ {Endpoint Lookup LookupResponse A D R S : Type 0} (lib : AddressLib A)
    (logic : ScLogic Endpoint Lookup LookupResponse A D R S) (client : LedgerClient A D R S) where
  -- What an endpoint that was hit went through.
  pub hit_endpoint-parts :
      (e : Endpoint) (s t : S) (id : String)
      → hit_endpoint ⦃lib = lib⦄ logic client e s ≡ (ok id, t)
      → (actions : TxActions A D R) × (u : S) × (tx : UnbuiltTransaction A D R)
        × ((logic.handle_endpoint client e s).0 ≡ ok actions)
        × (u ≡ (logic.handle_endpoint client e s).1)
        × (to_unbuilt_tx ⦃lib = lib⦄ actions ≡ ok tx)
        × ((client.issue tx u).0 ≡ ok id)
        × ((client.issue tx u).1 ≡ t)
  unfolding hit_endpoint actions_of
  hit_endpoint-parts e s t id h =
      let (actions, handled, h1) =
        >>=-eq-ok (actions_of ⦃lib = lib⦄ logic client e)
          (λ a.
            lift (to_unbuilt_tx ⦃lib = lib⦄ a) >>= λ tx. call Error.ledger_client (client.issue tx))
          s h in
      let u = (logic.handle_endpoint client e s).1 in
      let (tx, built, h2) =
        >>=-eq-ok (lift (to_unbuilt_tx ⦃lib = lib⦄ actions))
          (λ tx. call Error.ledger_client (client.issue tx)) u h1 in
      (
        actions,
        u,
        tx,
        map_err-ok Error.sc_logic (logic.handle_endpoint client e s).0 actions handled,
        refl,
        built,
        map_err-ok Error.ledger_client (client.issue tx u).0 id (ap (λ r. r.0) h2),
        ap (λ r. r.1) h2,
      )

module _ {Endpoint Lookup LookupResponse A D R : Type 0} ⦃d : Eq D⦄ (lib : AddressLib A)
    (hex : HexLib) (into : D → PlutusData)
    (logic : ScLogic Endpoint Lookup LookupResponse A D R (InMemoryStorage A D)) where
  -- An endpoint that was hit on the fake ledger in memory, with success, gave actions, which became a
  -- transaction, whose id was returned; every validator that it runs accepted its datum and redeemer
  -- in the context built for it, no output was redeemed twice, and every minting policy accepted.
  pub hit_endpoint-accepted :
      (e : Endpoint) (random : List ℕ) (s t : InMemoryStorage A D) (id : String)
      → hit_endpoint ⦃lib = lib⦄ logic
          (test_ledger_client (in_memory ⦃lib = lib⦄) lib hex into random)
          e
          s
        ≡ (ok id, t)
      → (actions : TxActions A D R) × (u : InMemoryStorage A D) × (tx : UnbuiltTransaction A D R)
        × (logic.handle_endpoint
              (test_ledger_client (in_memory ⦃lib = lib⦄) lib hex into random)
              e
              s
            ≡ (ok actions, u))
        × (to_unbuilt_tx ⦃lib = lib⦄ actions ≡ ok tx)
        × (id ≡ hex.encode random)
        × Redeems lib hex into tx u.signer [] tx.script_inputs
        × All (Mints lib hex into tx u.signer) tx.minting
  unfolding test_ledger_client
  hit_endpoint-accepted e random s t id h =
      let client = test_ledger_client (in_memory ⦃lib = lib⦄) lib hex into random in
      let (actions, u, tx, handled, left, built, issued, ended) =
        hit_endpoint-parts lib logic client e s t id h in
      let run : issue (in_memory ⦃lib = lib⦄) lib hex into tx random u ≡ (ok id, t) =
        ap₂ (λ r m. (r, m)) issued ended in
      (
        actions,
        u,
        tx,
        ap₂ (λ r m. (r, m)) handled (sym left),
        built,
        (issue-parts lib hex into tx random u t id run).0,
        (issue-accepted lib hex into tx random u t id run).0,
        (issue-accepted lib hex into tx random u t id run).1,
      )

-- ===== src/Tests/OneShot.antt =====
-- Minting an NFT on a small ledger.
use naumachia.Prelude.{◌≡◌, ◌⊎◌, refl, true, Eq, All, some, [], ◌∷◌, String, ok, err}
use naumachia.Prelude.Int.{pos}
use naumachia.Errors.{input_not_found}
use naumachia.PolicyId.{ada}
use naumachia.Values.{Values, empty, add_one_value}
use naumachia.Scripts.PlutusData.{array, nil}
use naumachia.Output.{Output, DatumKind}
use naumachia.Logic.{endpoint_dapp}
use naumachia.TestLedger.InMemory.{InMemoryStorage, in_memory, at_address}
use naumachia.TestLedger.Client.{test_ledger_client}
use naumachia.Minting.{UnitClient, impl_mint}
use naumachia.Minting.OneShot.{HoldsEnough, IsLastAbove, minting, impl_mint-branches}
use naumachia.Fixtures.{addresses, hex}
use naumachia.Fixtures.Contracts.{open_policy}

instance abbrev unit_eq : Eq (Unit {0})
unit_eq = record { beq = λ x y. true; beq_iff = λ x y. ((λ h. refl), λ h. refl) }

abbrev six_million : Values
unfolding add_one_value
six_million = add_one_value empty ada 6000000

abbrev owned : Output (Unit {0})
owned = record {
  id = record { tx_hash = 4 ∷ []; index = 2 };
  owner = "alice";
  values = six_million;
  datum = DatumKind.no_datum;
}

abbrev wallet_of_alice : InMemoryStorage String (Unit {0})
wallet_of_alice = record {
  signer = "alice";
  outputs = ("alice", owned) ∷ [];
  current_posix_time = pos 0;
  block_length = pos 20;
}

abbrev minter : UnitClient String (InMemoryStorage String (Unit {0}))
minter = test_ledger_client (in_memory ⦃lib = addresses⦄) addresses hex (λ x. array nil) (171 ∷ [])

signer_known : minter.signer_base_address wallet_of_alice ≡ (ok "alice", wallet_of_alice)
unfolding test_ledger_client
signer_known = refl

outputs_known :
    minter.all_outputs_at_address "alice" wallet_of_alice ≡ (ok (owned ∷ []), wallet_of_alice)
unfolding test_ledger_client at_address
outputs_known = refl

impl_mint-branches_example :
    ((o : Output (Unit {0})) × IsLastAbove (owned ∷ []) o
      × (impl_mint (ok (λ r. some open_policy)) minter wallet_of_alice
          ≡ (ok (minting (λ r. open_policy) o), wallet_of_alice)))
    ⊎ (All (λ o. ¬ HoldsEnough o) (owned ∷ [])
        × (impl_mint (ok (λ r. some open_policy)) minter wallet_of_alice
            ≡ (err (endpoint_dapp input_not_found), wallet_of_alice)))
impl_mint-branches_example =
    impl_mint-branches (λ r. open_policy) minter "alice" (owned ∷ []) wallet_of_alice
      wallet_of_alice wallet_of_alice signer_known outputs_known

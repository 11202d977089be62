-- ===== src/Fixtures/Contracts.antt =====
-- A checking account, its puller and a time lock that the examples run on.
use naumachia.Prelude.{
  ◌≡◌, ◌↔◌, arith, Bool, true, false, nat_eq, Eq, some, [], ◌∷◌, String, ok, string_eq, ◌==◌,
}
use naumachia.Prelude.Int.{ℤ, pos, negsuc}
use naumachia.Scripts.{Validator, MintingPolicy, no_cost}
use naumachia.Errors.{OutputId}
use naumachia.Output.{Output, typed}
use naumachia.LedgerClient.{LedgerClient}
use naumachia.TestLedger.InMemory.{InMemoryStorage, in_memory}
use naumachia.TestLedger.Client.{test_ledger_client}
use naumachia.CheckingAccount.{CheckingAccountScripts}
use naumachia.CheckingAccount.Datum.{
  CheckingAccountDatums, AllowedPuller, checking_account, allowed_puller, datum_data, datums_eq,
}
use naumachia.Fixtures.{addresses, hex, five_ada, twelve_ada}

-- A validator at an address that accepts everything.
abbrev pub open_at : {D R : Type 0} → String → Validator String D R
open_at address = record {
  execute = λ datum redeemer ctx. ok no_cost;
  address = λ network. ok address;
  script_hex = ok "ab";
}

abbrev pub open_policy : MintingPolicy String (Unit {0})
open_policy = record { execute = λ redeemer ctx. ok no_cost; id = ok "ab"; script_hex = ok "ab" }

abbrev pub scripts : CheckingAccountScripts String
scripts = record {
  checking_account_validator = ok (open_at "account");
  pull_validator = ok (open_at "pull");
  spend_token_policy = ok (λ nft owner. some open_policy);
  one_shot = ok (λ out_ref. some open_policy);
}

abbrev pub account_datum : CheckingAccountDatums
account_datum =
    checking_account (record { owner = record { bytes = 7 ∷ [] }; spend_token_policy = 171 ∷ [] })

abbrev pub puller : AllowedPuller
puller = record {
  owner = record { bytes = 7 ∷ [] };
  puller = record { bytes = 8 ∷ [] };
  amount_lovelace = 4;
  next_pull = pos 10000;
  period = pos 1000;
  spending_token = 171 ∷ [];
  checking_account_nft = 171 ∷ [];
}

abbrev pub account_id : OutputId
account_id = record { tx_hash = 2 ∷ []; index = 0 }

abbrev pub puller_id : OutputId
puller_id = record { tx_hash = 2 ∷ []; index = 1 }

abbrev pub account : Output CheckingAccountDatums
account = record {
  id = account_id;
  owner = "account";
  values = twelve_ada;
  datum = typed account_datum;
}

abbrev pub allowed : Output CheckingAccountDatums
allowed = record {
  id = puller_id;
  owner = "pull";
  values = five_ada;
  datum = typed (allowed_puller puller);
}

abbrev pub bank : InMemoryStorage String CheckingAccountDatums
bank = record {
  signer = "alice";
  outputs = ("account", account) ∷ ("pull", allowed) ∷ [];
  current_posix_time = pos 10000;
  block_length = pos 20;
}

abbrev pub client :
    LedgerClient String CheckingAccountDatums
      (Unit {0})
      (InMemoryStorage String CheckingAccountDatums)
client = test_ledger_client (in_memory ⦃lib = addresses⦄) addresses hex datum_data (171 ∷ [])

abbrev pub int_beq : ℤ → ℤ → Bool
int_beq (pos a) (pos b) = a == b
int_beq (negsuc a) (negsuc b) = a == b
int_beq _ _ = false

pub int_beq_iff : (x y : ℤ) → (int_beq x y ≡ true) ↔ (x ≡ y)
int_beq_iff (pos a) (pos b) = ground (arith, nat_eq.beq_iff a b)
int_beq_iff (pos a) (negsuc b) = ground arith
int_beq_iff (negsuc a) (pos b) = ground arith
int_beq_iff (negsuc a) (negsuc b) = ground (arith, nat_eq.beq_iff a b)

instance abbrev pub int_eq : Eq ℤ
int_eq = record { beq = int_beq; beq_iff = int_beq_iff }

-- An output that can be claimed from 15 seconds on.
abbrev pub lock_id : OutputId
lock_id = record { tx_hash = 3 ∷ []; index = 0 }

abbrev pub lock : Output ℤ
lock = record { id = lock_id; owner = "lock"; values = five_ada; datum = typed (pos 15000) }

abbrev pub locked_until : ℤ → InMemoryStorage String ℤ
locked_until now = record {
  signer = "alice";
  outputs = ("lock", lock) ∷ [];
  current_posix_time = now;
  block_length = pos 20;
}

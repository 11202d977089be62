-- ===== src/Fixtures.antt =====
-- Concrete addresses, scripts and a ledger that the examples run on.
pub mod Valid
pub mod Contracts
use naumachia.Prelude.{
  ℕ, ◌≡◌, refl, ◌==◌, if◌then◌else◌, Option, none, some, List, [], ◌∷◌, String, string_eq, nat_eq,
  list_eq, sym, Outcome, ok, err,
}
use naumachia.Prelude.Int.{ℤ, pos}
use naumachia.Address.{AddressLib}
use naumachia.Errors.{ScriptError}
use naumachia.PolicyId.{PolicyId, ada, native_token}
use naumachia.Values.{Values, empty, add_one_value}
use naumachia.Scripts.{Validator, MintingPolicy, no_cost}
use naumachia.Scripts.PlutusData.{PlutusData}
use naumachia.Output.{Output, UnbuiltOutput, wallet, typed, no_datum}
use naumachia.Transaction.{UnbuiltTransaction, v2}
use naumachia.TestLedger.TxId.{HexLib}
use naumachia.TestLedger.InMemory.{InMemoryStorage}

-- Addresses in the form of their text; every one has a payment hash.
abbrev pub addresses : AddressLib String
addresses = record {
  address_eq = string_eq;
  to_bech32 = λ a. some a;
  from_bech32 = λ s. some s;
  payment_hash = λ a. some (7 ∷ []);
  decode-encode = λ a s h. sym h;
}

-- The hex text of the one byte 0xab.
abbrev pub hex : HexLib
hex = record {
  encode = λ bytes. if bytes == (171 ∷ []) then "ab" else "";
  decode = λ s. if s == "ab" then some (171 ∷ []) else none;
}

abbrev pub datum_data : ℕ → PlutusData
datum_data n = PlutusData.bounded_bytes (n ∷ [])

abbrev pub token : PolicyId
token = native_token "ab" (some "gold")

abbrev pub ten_ada : Values
ten_ada = add_one_value empty ada 10

abbrev pub five_ada : Values
five_ada = add_one_value empty ada 5

abbrev pub twelve_ada : Values
twelve_ada = add_one_value (add_one_value empty ada 12) token 3

-- A validator that wants the redeemer to be the datum.
abbrev pub vault : Validator String ℕ ℕ
vault = record {
  execute = λ datum redeemer ctx.
      if datum == redeemer then ok no_cost else err ScriptError.failed_to_execute;
  address = λ network. ok "vault";
  script_hex = ok "ab";
}

abbrev pub mint_policy : MintingPolicy String ℕ
mint_policy = record { execute = λ redeemer ctx. ok no_cost; id = ok "ab"; script_hex = ok "ab" }

abbrev pub purse : Output ℕ
purse = record {
  id = record { tx_hash = 1 ∷ []; index = 0 };
  owner = "alice";
  values = ten_ada;
  datum = no_datum;
}

abbrev pub locked : Output ℕ
locked = record {
  id = record { tx_hash = 1 ∷ []; index = 1 };
  owner = "vault";
  values = five_ada;
  datum = typed 7;
}

abbrev pub ledger : InMemoryStorage String ℕ
ledger = record {
  signer = "alice";
  outputs = ("alice", purse) ∷ ("vault", locked) ∷ [];
  current_posix_time = pos 0;
  block_length = pos 20;
}

-- Alice redeems what is locked, mints three tokens, and pays Bob; three ada are left.
abbrev pub payment : UnbuiltTransaction String ℕ ℕ
payment = record {
  script_version = v2;
  script_inputs = (locked, 7, vault) ∷ [];
  unbuilt_outputs = wallet "bob" twelve_ada ∷ [];
  minting = (3, some "gold", 0, mint_policy) ∷ [];
  specific_wallet_inputs = [];
  valid_range = (none, none);
}

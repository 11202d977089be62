-- ===== src/Address.antt =====
-- What the code uses of the crate `pallas_addresses`: an interface, with the behaviour that it
-- documents. `None` stands for the `Err` of the crate's functions.
use naumachia.Prelude.{ℕ, ◌≡◌, Option, some, List, String, Eq}

pub data Network : Type 0 where
  testnet mainnet : Network
  other : ℕ → Network

-- The parts of a Shelley address.
pub data PaymentPart : Type 0 where
  key script : List ℕ → PaymentPart

-- The pointer is a slot, an index of a transaction and one of a certificate.
pub data DelegationPart : Type 0 where
  key script : List ℕ → DelegationPart
  pointer : ℕ → ℕ → ℕ → DelegationPart
  null : DelegationPart

pub record AddressLib (Address : Type 0) : Type 0 where
  pub address_eq : Eq Address
  -- `Address::to_bech32`: Byron addresses have no such form.
  pub to_bech32 : Address → Option String
  -- `Address::from_bech32`
  pub from_bech32 : String → Option Address
  -- The hash of the payment part, of a Shelley address only.
  pub payment_hash : Address → Option (List ℕ)
  -- What was encoded can be decoded.
  pub decode-encode : (a : Address) (s : String) → to_bech32 a ≡ some s → from_bech32 s ≡ some a

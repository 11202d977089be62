-- ===== src/Scripts/PlutusData.antt =====
-- Plutus data (src/scripts/plutus_validator/plutus_data.rs). A `BTreeMap` is the list of its entries,
-- in the order of their keys.
pub mod Numbers
pub mod Order
pub mod Maps
pub mod Convert
use naumachia.Prelude.{ℕ, Bool, List, Eq, eq_of_discrete}
use native.Mathlib.Decide.{ℕ_discrete}

pub data BigInt : Type 0 where
  int : Bool → ℕ → BigInt
  big_uint big_nint : List ℕ → BigInt

mutual
  pub data PlutusData : Type 0 where
    constr : ℕ → Items → PlutusData
    map : Entries → PlutusData
    big_int : BigInt → PlutusData
    bounded_bytes : List ℕ → PlutusData
    array : Items → PlutusData

  pub data Items : Type 0 where
    nil : Items
    cons : PlutusData → Items → Items

  pub data Entries : Type 0 where
    end : Entries
    entry : PlutusData → PlutusData → Entries → Entries

BigInt-discrete : Discrete BigInt
BigInt-discrete = hlevel ℕ_discrete

pub PlutusData-discrete : Discrete PlutusData
PlutusData-discrete = hlevel (ℕ_discrete, BigInt-discrete)

instance abbrev pub plutus_data_eq : Eq PlutusData
plutus_data_eq = eq_of_discrete PlutusData-discrete

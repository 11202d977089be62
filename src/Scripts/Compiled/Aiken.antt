-- ===== src/Scripts/Compiled/Aiken.antt =====
-- Plutus data for the machine that runs scripts (src/scripts/plutus_validator.rs). The types are those
-- of the crate `uplc`, with the constructors that the code names. `tag_of` is its
-- `convert_constr_to_tag`, `int_of_i128` its conversion from i128.
use naumachia.Prelude.{
  ℕ, ◌≤◌, ◌<◌, ◌≡◌, Option, none, some, List, if◌then◌else◌, Outcome, ok, ◌>>=◌, expect, u64_mod,
}
use naumachia.Prelude.Int.{ℤ, pos, sub_ℕ, pos_part, neg_part}
use naumachia.Scripts.PlutusData.{BigInt, PlutusData, Items, Entries}

pub data AikenBigInt : Type 0 where
  int : ℤ → AikenBigInt
  big_uint big_nint : List ℕ → AikenBigInt

mutual
  pub data AikenData : Type 0 where
    -- The tag, the index where no tag stands for it, and the fields.
    constr : ℕ → Option ℕ → AikenItems → AikenData
    map : AikenEntries → AikenData
    big_int : AikenBigInt → AikenData
    bounded_bytes : List ℕ → AikenData
    array : AikenItems → AikenData

  pub data AikenItems : Type 0 where
    nil : AikenItems
    cons : AikenData → AikenItems → AikenItems

  pub data AikenEntries : Type 0 where
    end : AikenEntries
    entry : AikenData → AikenData → AikenEntries → AikenEntries

-- `AikenConstr::from`, of the fields that are converted.
unfoldable pub aiken_constr : (ℕ → Option ℕ) → ℕ → AikenItems → AikenData
aiken_constr tag_of index fields = elim (tag_of index) [
  | some tag ↦ AikenData.constr tag none fields
  | none ↦ AikenData.constr 102 (some index) fields
]

module _ {E : Type 0} (int_of_i128 : ℤ → Option ℤ) where
  -- `AikenBigInt::from`: the number at type i128, and `expect` where it is no integer of `uplc`.
  unfoldable pub aiken_big_int : BigInt → Outcome E AikenBigInt
  aiken_big_int (BigInt.int neg val) =
      let final_val = if neg then sub_ℕ 0 val else pos val in
      expect (int_of_i128 final_val) >>= λ inner. ok (AikenBigInt.int inner)
  aiken_big_int (BigInt.big_uint bytes) = ok (AikenBigInt.big_uint bytes)
  aiken_big_int (BigInt.big_nint bytes) = ok (AikenBigInt.big_nint bytes)

module _ {E : Type 0} (tag_of : ℕ → Option ℕ) (int_of_i128 : ℤ → Option ℤ) where
  unfoldable mutual
    unfolding aiken_big_int aiken_constr

    pub aiken_data : PlutusData → Outcome E AikenData
    aiken_data (PlutusData.constr index fields) =
        aiken_items fields >>= λ xs. ok (aiken_constr tag_of index xs)
    aiken_data (PlutusData.map entries) = aiken_entries entries >>= λ xs. ok (AikenData.map xs)
    aiken_data (PlutusData.big_int n) =
        aiken_big_int int_of_i128 n >>= λ i. ok (AikenData.big_int i)
    aiken_data (PlutusData.bounded_bytes bytes) = ok (AikenData.bounded_bytes bytes)
    aiken_data (PlutusData.array xs) = aiken_items xs >>= λ ys. ok (AikenData.array ys)

    pub aiken_items : Items → Outcome E AikenItems
    aiken_items Items.nil = ok AikenItems.nil
    aiken_items (Items.cons x xs) =
        aiken_data x >>= λ y. aiken_items xs >>= λ ys. ok (AikenItems.cons y ys)

    pub aiken_entries : Entries → Outcome E AikenEntries
    aiken_entries Entries.end = ok AikenEntries.end
    aiken_entries (Entries.entry k v m) = aiken_data k >>= λ l.
        aiken_data v >>= λ w. aiken_entries m >>= λ n. ok (AikenEntries.entry l w n)

unfoldable pub BigIntU64 : BigInt → Type 0
BigIntU64 (BigInt.int _ val) = val < u64_mod
BigIntU64 (BigInt.big_uint _) = Unit {0}
BigIntU64 (BigInt.big_nint _) = Unit {0}

unfoldable mutual
  unfolding BigIntU64

  -- Every number of the data is a u64 with a sign, as its type has it.
  pub HasU64 : PlutusData → Type 0
  HasU64 (PlutusData.constr _ fields) = HaveU64 fields
  HasU64 (PlutusData.map entries) = EntriesU64 entries
  HasU64 (PlutusData.big_int n) = BigIntU64 n
  HasU64 (PlutusData.bounded_bytes _) = Unit {0}
  HasU64 (PlutusData.array xs) = HaveU64 xs

  pub HaveU64 : Items → Type 0
  HaveU64 Items.nil = Unit {0}
  HaveU64 (Items.cons x xs) = HasU64 x × HaveU64 xs

  pub EntriesU64 : Entries → Type 0
  EntriesU64 Entries.end = Unit {0}
  EntriesU64 (Entries.entry k v m) = HasU64 k × HasU64 v × EntriesU64 m

-- The integers from -2^64 to 2^64 - 1 are integers of `uplc`.
unfoldable pub TakesU64 : (ℤ → Option ℤ) → Type 0
TakesU64 int_of_i128 =
    (z : ℤ) → pos_part z < u64_mod → neg_part z ≤ u64_mod → int_of_i128 z ≡ some z

-- ===== src/Scripts/Compiled/Totals.antt =====
-- The conversion of Plutus data for the machine, where `expect` is said never to fail
-- (src/scripts/plutus_validator.rs).
use naumachia.Prelude.{
  ℕ, Bool, ◌<◌, ◌≡◌, refl, ap, arith, true, false, Option, some, ok, ◌>>=◌, expect, u64_mod,
  if◌then◌else◌,
}
use naumachia.Prelude.Int.{ℤ, pos, sub_ℕ}
use naumachia.Scripts.PlutusData.{BigInt, PlutusData, Items, Entries}
use naumachia.Scripts.Compiled.Aiken.{
  AikenBigInt, AikenData, AikenItems, AikenEntries, aiken_big_int, aiken_constr, aiken_data,
  aiken_items, aiken_entries, BigIntU64, HasU64, HaveU64, EntriesU64, TakesU64,
}

module _ (int_of_i128 : ℤ → Option ℤ) (takes : TakesU64 int_of_i128) where
  signed-taken :
      (neg : Bool) (val : ℕ)
      → val < u64_mod
      → int_of_i128 (if neg then sub_ℕ 0 val else pos val)
        ≡ some (if neg then sub_ℕ 0 val else pos val)
  unfolding TakesU64
  signed-taken true val h = takes (sub_ℕ 0 val) (ground arith) (ground arith)
  signed-taken false val h = takes (pos val) h (omega arith)

module _ {E : Type 0} (tag_of : ℕ → Option ℕ) (int_of_i128 : ℤ → Option ℤ)
    (takes : TakesU64 int_of_i128) where
  aiken_big_int_total :
      (n : BigInt) → BigIntU64 n → (i : AikenBigInt) × (aiken_big_int {E = E} int_of_i128 n ≡ ok i)
  unfolding aiken_big_int BigIntU64
  aiken_big_int_total (BigInt.int neg val) h = (
    _,
    ap (λ o. expect o >>= λ inner. ok (AikenBigInt.int inner))
        (signed-taken int_of_i128 takes neg val h),
  )
  aiken_big_int_total (BigInt.big_uint bytes) h = (_, refl)
  aiken_big_int_total (BigInt.big_nint bytes) h = (_, refl)

  mutual
    unfolding aiken_data HasU64

    aiken_data_total :
        (d : PlutusData)
        → HasU64 d
        → (a : AikenData) × (aiken_data {E = E} tag_of int_of_i128 d ≡ ok a)
    aiken_data_total (PlutusData.constr index fields) h =
        let (xs, p) = aiken_items_total fields h in
        (_, ap (λ o. o >>= λ xs. ok (aiken_constr tag_of index xs)) p)
    aiken_data_total (PlutusData.map entries) h =
        let (xs, p) = aiken_entries_total entries h in
        (_, ap (λ o. o >>= λ xs. ok (AikenData.map xs)) p)
    aiken_data_total (PlutusData.big_int n) h =
        let (i, p) = aiken_big_int_total n h in (_, ap (λ o. o >>= λ i. ok (AikenData.big_int i)) p)
    aiken_data_total (PlutusData.bounded_bytes bytes) h = (_, refl)
    aiken_data_total (PlutusData.array xs) h =
        let (ys, p) = aiken_items_total xs h in (_, ap (λ o. o >>= λ ys. ok (AikenData.array ys)) p)

    aiken_items_total :
        (xs : Items)
        → HaveU64 xs
        → (ys : AikenItems) × (aiken_items {E = E} tag_of int_of_i128 xs ≡ ok ys)
    aiken_items_total Items.nil h = (_, refl)
    aiken_items_total (Items.cons x xs) (h, hs) =
        let (y, p) = aiken_data_total x h in
        let (ys, q) = aiken_items_total xs hs in (AikenItems.cons y ys, simp (p, q))

    aiken_entries_total :
        (xs : Entries)
        → EntriesU64 xs
        → (ys : AikenEntries) × (aiken_entries {E = E} tag_of int_of_i128 xs ≡ ok ys)
    aiken_entries_total Entries.end h = (_, refl)
    aiken_entries_total (Entries.entry k v m) (h, i, j) =
        let (l, p) = aiken_data_total k h in
        let (w, q) = aiken_data_total v i in
        let (n, r) = aiken_entries_total m j in (AikenEntries.entry l w n, simp (p, q, r))

  -- Plutus data whose integers have magnitudes below 2^64 is converted for the machine: where `uplc`
  -- takes the integers from -2^64 to 2^64 - 1, no `expect` fails.
  pub aiken_data-HasU64 :
      (d : PlutusData)
      → HasU64 d
      → (a : AikenData) × (aiken_data {E = E} tag_of int_of_i128 d ≡ ok a)
  aiken_data-HasU64 = aiken_data_total

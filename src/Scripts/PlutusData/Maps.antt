-- ===== src/Scripts/PlutusData/Maps.antt =====
-- `BTreeMap`s of Plutus data: the entries in the order of their keys
-- (src/scripts/plutus_validator/plutus_data.rs).
use naumachia.Prelude.{
  ◌≡◌, refl, sym, ap, ◌∙◌, Bool-cases, inl, inr, ◌⊎◌, Option, none, some, List, [], ◌∷◌,
  if◌then◌else◌, ◌==◌,
}
use Prim.Native.Nat.{Ordering}
use naumachia.Scripts.PlutusData.{PlutusData, Entries, end, entry, plutus_data_eq}
use naumachia.Scripts.PlutusData.Order.{data_cmp, data_cmp-eq_iff}

-- `BTreeMap::get`
unfoldable pub lookup : PlutusData → Entries → Option PlutusData
lookup k end = none
lookup k (entry l v m) = if k == l then some v else lookup k m

-- `BTreeMap::insert`
unfoldable pub insert_sorted : PlutusData → PlutusData → Entries → Entries
unfolding data_cmp
insert_sorted k v end = entry k v end
insert_sorted k v (entry l w m) =
    let rest = insert_sorted k v m in
    elim (data_cmp k l) [
      | Ordering.lt ↦ entry k v (entry l w m)
      | Ordering.eq ↦ entry k v m
      | Ordering.gt ↦ entry l w rest
    ]

-- `collect` into a `BTreeMap`: of entries with one key the last one stays.
unfoldable pub collect_sorted : Entries → List (PlutusData × PlutusData) → Entries
unfolding insert_sorted
collect_sorted m [] = m
collect_sorted m ((k, v) ∷ entries) = collect_sorted (insert_sorted k v m) entries

Ordering-cases : (o : Ordering) → (o ≡ Ordering.lt) ⊎ (o ≡ Ordering.eq) ⊎ (o ≡ Ordering.gt)
Ordering-cases Ordering.lt = inl refl
Ordering-cases Ordering.eq = inr (inl refl)
Ordering-cases Ordering.gt = inr (inr refl)

-- An insertion is seen under its key alone.
pub lookup-insert_sorted :
    (k v : PlutusData) (m : Entries) (j : PlutusData)
    → lookup j (insert_sorted k v m) ≡ (if j == k then some v else lookup j m)
unfolding lookup insert_sorted
lookup-insert_sorted k v end j = refl
lookup-insert_sorted k v (entry l w m) j = elim (Ordering-cases (data_cmp k l)) [
  | inl before ↦ rw (insert_sorted, before) refl
  | inr (inl same) ↦
      let equal = (data_cmp-eq_iff k l).0 same in
      elim (Bool-cases (j == k)) [
        | inl here ↦ rw (insert_sorted, same, lookup, here) refl
        | inr there ↦
            rw (insert_sorted, same, lookup, there, ap (λ x. j == x) (sym equal) ∙ there) refl
      ]
  | inr (inr after) ↦ elim (Bool-cases (j == l)) [
    | inl here ↦
        let is_l = (plutus_data_eq.beq_iff j l).0 here in
        elim (Bool-cases (j == k)) [
          | inl clash ↦
              let is_k = (plutus_data_eq.beq_iff j k).0 clash in
              absurd (cc (sym after ∙ (data_cmp-eq_iff k l).1 (sym is_k ∙ is_l)))
          | inr apart ↦ rw (insert_sorted, after, lookup, here, apart) refl
        ]
    | inr there ↦ rw (insert_sorted, after, lookup, there) (lookup-insert_sorted k v m j)
  ]
]

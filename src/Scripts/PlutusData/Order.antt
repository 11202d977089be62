-- ===== src/Scripts/PlutusData/Order.antt =====
-- The derived `Ord` of Plutus data (src/scripts/plutus_validator/plutus_data.rs): the variants in
-- their order, fields one after the other, and lists and maps entry by entry.
use naumachia.Prelude.{◌↔◌, ℕ, ◌≡◌, refl, sym, ap, ◌∙◌, Bool, true, false, List, [], ◌∷◌, arith}
use mathlib.Core.Path.{ap₂}
use Prim.Native.Nat.{Ordering, compare}
use naumachia.Scripts.PlutusData.{
  BigInt, int, big_uint, big_nint, PlutusData, constr, map, big_int, bounded_bytes, array, Items,
  nil, cons, Entries, end, entry,
}

-- The first answer that is not "equal".
abbrev pub and_then : Ordering → Ordering → Ordering
and_then Ordering.lt _ = Ordering.lt
and_then Ordering.eq o = o
and_then Ordering.gt _ = Ordering.gt

abbrev pub bool_cmp : Bool → Bool → Ordering
bool_cmp false true = Ordering.lt
bool_cmp true false = Ordering.gt
bool_cmp _ _ = Ordering.eq

abbrev pub bytes_cmp : List ℕ → List ℕ → Ordering
bytes_cmp [] [] = Ordering.eq
bytes_cmp [] (_ ∷ _) = Ordering.lt
bytes_cmp (_ ∷ _) [] = Ordering.gt
bytes_cmp (a ∷ xs) (b ∷ ys) = and_then (compare a b) (bytes_cmp xs ys)

abbrev pub big_int_cmp : BigInt → BigInt → Ordering
big_int_cmp (int n v) (int m w) = and_then (bool_cmp n m) (compare v w)
big_int_cmp (int _ _) _ = Ordering.lt
big_int_cmp (big_uint a) (big_uint b) = bytes_cmp a b
big_int_cmp (big_uint _) (big_nint _) = Ordering.lt
big_int_cmp (big_nint a) (big_nint b) = bytes_cmp a b
big_int_cmp _ _ = Ordering.gt

-- The place of a variant.
abbrev pub variant : PlutusData → ℕ
variant (constr _ _) = 0
variant (map _) = 1
variant (big_int _) = 2
variant (bounded_bytes _) = 3
variant (array _) = 4

unfoldable mutual
  pub data_cmp : PlutusData → PlutusData → Ordering
  data_cmp (constr c xs) (constr d ys) = and_then (compare c d) (items_cmp xs ys)
  data_cmp (map m) (map n) = entries_cmp m n
  data_cmp (big_int a) (big_int b) = big_int_cmp a b
  data_cmp (bounded_bytes a) (bounded_bytes b) = bytes_cmp a b
  data_cmp (array xs) (array ys) = items_cmp xs ys
  data_cmp a b = compare (variant a) (variant b)

  pub items_cmp : Items → Items → Ordering
  items_cmp nil nil = Ordering.eq
  items_cmp nil (cons _ _) = Ordering.lt
  items_cmp (cons _ _) nil = Ordering.gt
  items_cmp (cons x xs) (cons y ys) = and_then (data_cmp x y) (items_cmp xs ys)

  pub entries_cmp : Entries → Entries → Ordering
  entries_cmp end end = Ordering.eq
  entries_cmp end (entry _ _ _) = Ordering.lt
  entries_cmp (entry _ _ _) end = Ordering.gt
  entries_cmp (entry k v m) (entry l w n) =
      and_then (data_cmp k l) (and_then (data_cmp v w) (entries_cmp m n))

-- Comparing as equal is being equal.
compare_refl : (a : ℕ) → compare a a ≡ Ordering.eq
compare_refl a = ground arith

and_then-eq : (o p : Ordering) → and_then o p ≡ Ordering.eq → (o ≡ Ordering.eq) × (p ≡ Ordering.eq)
and_then-eq Ordering.lt p h = absurd (cc h)
and_then-eq Ordering.eq p h = (refl, h)
and_then-eq Ordering.gt p h = absurd (cc h)

compare-eq : (a b : ℕ) → compare a b ≡ Ordering.eq → a ≡ b
compare-eq a b h = ground arith

bytes_cmp-eq : (a b : List ℕ) → bytes_cmp a b ≡ Ordering.eq → a ≡ b
bytes_cmp-eq [] [] h = refl
bytes_cmp-eq [] (_ ∷ _) h = absurd (cc h)
bytes_cmp-eq (_ ∷ _) [] h = absurd (cc h)
bytes_cmp-eq (a ∷ xs) (b ∷ ys) h =
    let (first, rest) = and_then-eq (compare a b) (bytes_cmp xs ys) h in
    ap₂ (λ x l. x ∷ l) (compare-eq a b first) (bytes_cmp-eq xs ys rest)

bytes_cmp_refl : (a : List ℕ) → bytes_cmp a a ≡ Ordering.eq
bytes_cmp_refl [] = refl
bytes_cmp_refl (a ∷ xs) = rw (compare_refl a) (bytes_cmp_refl xs)

big_int_cmp-eq : (a b : BigInt) → big_int_cmp a b ≡ Ordering.eq → a ≡ b
big_int_cmp-eq (int n v) (int m w) h =
    let (sign, size) = and_then-eq (bool_cmp n m) (compare v w) h in
    ap₂ (λ x y. int x y) (bool_cmp-eq n m sign) (compare-eq v w size)
  where
    bool_cmp-eq : (n m : Bool) → bool_cmp n m ≡ Ordering.eq → n ≡ m
    bool_cmp-eq true true h = refl
    bool_cmp-eq false false h = refl
    bool_cmp-eq true false h = absurd (cc h)
    bool_cmp-eq false true h = absurd (cc h)
big_int_cmp-eq (int _ _) (big_uint _) h = absurd (cc h)
big_int_cmp-eq (int _ _) (big_nint _) h = absurd (cc h)
big_int_cmp-eq (big_uint a) (big_uint b) h = ap (λ x. big_uint x) (bytes_cmp-eq a b h)
big_int_cmp-eq (big_uint _) (int _ _) h = absurd (cc h)
big_int_cmp-eq (big_uint _) (big_nint _) h = absurd (cc h)
big_int_cmp-eq (big_nint a) (big_nint b) h = ap (λ x. big_nint x) (bytes_cmp-eq a b h)
big_int_cmp-eq (big_nint _) (int _ _) h = absurd (cc h)
big_int_cmp-eq (big_nint _) (big_uint _) h = absurd (cc h)

big_int_cmp_refl : (a : BigInt) → big_int_cmp a a ≡ Ordering.eq
big_int_cmp_refl (int true v) = compare_refl v
big_int_cmp_refl (int false v) = compare_refl v
big_int_cmp_refl (big_uint a) = bytes_cmp_refl a
big_int_cmp_refl (big_nint a) = bytes_cmp_refl a

mutual
  unfolding data_cmp

  cmp_refl : (a : PlutusData) → data_cmp a a ≡ Ordering.eq
  cmp_refl (constr c xs) = rw (compare_refl c) (items_refl xs)
  cmp_refl (map m) = entries_refl m
  cmp_refl (big_int a) = big_int_cmp_refl a
  cmp_refl (bounded_bytes a) = bytes_cmp_refl a
  cmp_refl (array xs) = items_refl xs

  items_refl : (xs : Items) → items_cmp xs xs ≡ Ordering.eq
  items_refl nil = refl
  items_refl (cons x xs) = rw (cmp_refl x) (items_refl xs)

  entries_refl : (m : Entries) → entries_cmp m m ≡ Ordering.eq
  entries_refl end = refl
  entries_refl (entry k v m) = rw (cmp_refl k, cmp_refl v) (entries_refl m)

mutual
  unfolding data_cmp

  cmp_eq : (a b : PlutusData) → data_cmp a b ≡ Ordering.eq → a ≡ b
  cmp_eq (constr c xs) (constr d ys) h =
      let (first, rest) = and_then-eq (compare c d) (items_cmp xs ys) h in
      ap₂ (λ x l. constr x l) (compare-eq c d first) (items_eq xs ys rest)
  cmp_eq (map m) (map n) h = ap (λ x. map x) (entries_eq m n h)
  cmp_eq (big_int a) (big_int b) h = ap (λ x. big_int x) (big_int_cmp-eq a b h)
  cmp_eq (bounded_bytes a) (bounded_bytes b) h = ap (λ x. bounded_bytes x) (bytes_cmp-eq a b h)
  cmp_eq (array xs) (array ys) h = ap (λ x. array x) (items_eq xs ys h)
  cmp_eq a b h = absurd (cc h)

  items_eq : (xs ys : Items) → items_cmp xs ys ≡ Ordering.eq → xs ≡ ys
  items_eq nil nil h = refl
  items_eq nil (cons _ _) h = absurd (cc h)
  items_eq (cons _ _) nil h = absurd (cc h)
  items_eq (cons x xs) (cons y ys) h =
      let (first, rest) = and_then-eq (data_cmp x y) (items_cmp xs ys) h in
      ap₂ (λ a l. cons a l) (cmp_eq x y first) (items_eq xs ys rest)

  entries_eq : (m n : Entries) → entries_cmp m n ≡ Ordering.eq → m ≡ n
  entries_eq end end h = refl
  entries_eq end (entry _ _ _) h = absurd (cc h)
  entries_eq (entry _ _ _) end h = absurd (cc h)
  entries_eq (entry k v m) (entry l w n) h =
      let (key, more) = and_then-eq (data_cmp k l) _ h in
      let (value, rest) = and_then-eq (data_cmp v w) (entries_cmp m n) more in
      λ i. entry (cmp_eq k l key i) (cmp_eq v w value i) (entries_eq m n rest i)

-- Plutus data compare as equal exactly if they are equal.
pub data_cmp-eq_iff : (a b : PlutusData) → (data_cmp a b ≡ Ordering.eq) ↔ (a ≡ b)
data_cmp-eq_iff a b = (cmp_eq a b, λ same. ap (λ x. data_cmp a x) (sym same) ∙ cmp_refl a)

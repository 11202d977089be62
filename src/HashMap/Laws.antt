-- ===== src/HashMap/Laws.antt =====
-- Lookups, sums and numbers of entries after each operation of a map.
use naumachia.Prelude.{
  ℕ, ◌+◌, ◌≤◌, ◌≡◌, refl, none, some, Option, false, List, [], ◌∷◌, ◌++◌, arith, if◌then◌else◌, Eq,
  ◌==◌, sum_of-append, All, ==-refl,
}
use naumachia.HashMap.{HashMap, get, insert, erase, collect_into, tally, count, IsMap}

module _ {ℓ κ} {K : Type ℓ} {V : Type κ} ⦃e : Eq K⦄ where
  pub get-insert :
      (k j : K) (v : V) (m : HashMap K V)
      → get j (insert k v m) ≡ (if j == k then some v else get j m)
  unfolding get insert
  get-insert k j v [] = refl
  get-insert k j v (x ∷ m) =
      ground (arith, get-insert k j v m, e.beq_iff j k, e.beq_iff k x.0, e.beq_iff j x.0)

  pub get-eq-none : (q : K) (m : HashMap K V) → count q m ≡ 0 → get q m ≡ none
  unfolding get count
  get-eq-none q [] h = refl
  get-eq-none q (x ∷ m) h = ground (arith, get-eq-none q m)

  pub count-eq-zero : (q : K) (m : HashMap K V) → get q m ≡ none → count q m ≡ 0
  unfolding get count
  count-eq-zero q [] h = refl
  count-eq-zero q (x ∷ m) h = ground (arith, count-eq-zero q m)

  pub count-pos : (q : K) (m : HashMap K V) (v : V) → get q m ≡ some v → 1 ≤ count q m
  unfolding get count
  count-pos q [] v h = ground arith
  count-pos q (x ∷ m) v h = ground (arith, count-pos q m v)

  pub count-append : (q : K) (m n : HashMap K V) → count q (m ++ n) ≡ count q m + count q n
  unfolding count
  count-append q m n = sum_of-append _ m n

  pub count-insert :
      (k q : K) (v : V) (m : HashMap K V)
      → count q (insert k v m)
        ≡ count q m + (if q == k then elim (get k m) [ none ↦ 1 | some _ ↦ 0 ] else 0)
  unfolding get count insert
  count-insert k q v [] = ground arith
  count-insert k q v (x ∷ m) =
      ground (arith, count-insert k q v m, e.beq_iff q k, e.beq_iff k x.0, e.beq_iff q x.0)

  pub insert-IsMap : (k : K) (v : V) (m : HashMap K V) → IsMap m → IsMap (insert k v m)
  insert-IsMap k v m h q =
      ground (arith, count-insert k q v m, h q, count-eq-zero k m, e.beq_iff q k)

  pub get-erase_ne : (k q : K) (m : HashMap K V) → (q == k) ≡ false → get q (erase k m) ≡ get q m
  unfolding get erase
  get-erase_ne k q [] h = refl
  get-erase_ne k q (x ∷ m) h =
      ground (arith, get-erase_ne k q m h, e.beq_iff k x.0, e.beq_iff q k, e.beq_iff q x.0)

  -- In a map, what is found after a removal was there before it.
  pub get-of-erase :
      (k q : K) (v : V) (m : HashMap K V)
      → count q m ≤ 1
      → get q (erase k m) ≡ some v
      → get q m ≡ some v
  unfolding get erase count
  get-of-erase k q v [] h g = ground arith
  get-of-erase k q v (x ∷ m) h g =
      ground (arith, get-of-erase k q v m, count-pos q m v, e.beq_iff k x.0, e.beq_iff q x.0)

  pub count-cons :
      (k q : K) (v : V) (m : HashMap K V)
      → count q ((k, v) ∷ m) ≡ (if q == k then 1 else 0) + count q m
  unfolding count
  count-cons k q v m = refl

  pub get-cons :
      (k q : K) (v : V) (m : HashMap K V)
      → get q ((k, v) ∷ m) ≡ (if q == k then some v else get q m)
  unfolding get
  get-cons k q v m = refl

  count-erase-le : (k q : K) (m : HashMap K V) → count q (erase k m) ≤ count q m
  unfolding count erase
  count-erase-le k q [] = omega arith
  count-erase-le k q (x ∷ m) = ground (arith, count-erase-le k q m)

  pub tail-IsMap : (k : K) (v : V) (m : HashMap K V) → IsMap ((k, v) ∷ m) → IsMap m
  tail-IsMap k v m once q = omega (arith, count-cons k q v m, once q)

  pub count-tail_zero : (k : K) (v : V) (m : HashMap K V) → IsMap ((k, v) ∷ m) → count k m ≡ 0
  count-tail_zero k v m once = ground (arith, count-cons k k v m, once k, ==-refl k)

  pub erase-IsMap : (k : K) (m : HashMap K V) → IsMap m → IsMap (erase k m)
  erase-IsMap k m h q = omega (arith, count-erase-le k q m, h q)

  -- The keys behind the first entry of a map differ from its key.
  pub tail_apart :
      (k q : K) (v w : V) (m : HashMap K V)
      → IsMap ((k, v) ∷ m)
      → get q m ≡ some w
      → (q == k) ≡ false
  tail_apart k q v w m once g = ground (arith, count-cons k q v m, once q, count-pos q m w g)

  -- A relation between the entries of a list and what a map holds under their keys outlives the
  -- removal of a key that the list does not have.
  pub All-erase {μ} :
      (R : Option V → V → Type μ) (k : K) (m xs : HashMap K V)
      → count k xs ≡ 0
      → All (λ x. R (get x.0 m) x.1) xs
      → All (λ x. R (get x.0 (erase k m)) x.1) xs
  All-erase R k m [] none_left h = tt
  All-erase R k m (x ∷ xs) none_left (first, rest) =
      let apart = count-cons x.0 k x.1 xs in
      (
        rw (get-erase_ne k x.0 m (ground (arith, apart, e.beq_iff x.0 k, e.beq_iff k x.0))) first,
        All-erase R k m xs (ground (arith, apart)) rest,
      )

  -- What holds of every lookup holds of every entry.
  pub All-of-get {μ} :
      (R : Option V → V → Type μ) (m xs : HashMap K V)
      → IsMap xs
      → ((q : K) (v : V) → get q xs ≡ some v → R (get q m) v)
      → All (λ x. R (get x.0 m) x.1) xs
  All-of-get R m [] once h = tt
  All-of-get R m ((k, v) ∷ xs) once h = (
    h k v (rw (get-cons k k v xs, ==-refl k)),
    All-of-get R m xs (tail-IsMap k v xs once)
        (λ q w g. h q w (rw (get-cons k q v xs, tail_apart k q v w xs once g) g)),
  )

  pub count-erase :
      (k q : K) (v : V) (m : HashMap K V)
      → get k m ≡ some v
      → count q (erase k m) + (if q == k then 1 else 0) ≡ count q m
  unfolding get count erase
  count-erase k q v [] h = ground arith
  count-erase k q v (x ∷ m) h =
      ground (arith, count-erase k q v m, e.beq_iff q k, e.beq_iff k x.0, e.beq_iff q x.0)

module _ {ℓ} {K : Type ℓ} ⦃e : Eq K⦄ where
  pub tally-append : (q : K) (m n : HashMap K ℕ) → tally q (m ++ n) ≡ tally q m + tally q n
  unfolding tally
  tally-append q m n = sum_of-append _ m n

  pub tally-eq-zero : (q : K) (m : HashMap K ℕ) → count q m ≡ 0 → tally q m ≡ 0
  unfolding tally count
  tally-eq-zero q [] h = refl
  tally-eq-zero q (x ∷ m) h = ground (arith, tally-eq-zero q m)

  pub tally-nil : (q : K) → tally q [] ≡ 0
  unfolding tally
  tally-nil q = refl

  pub tally-cons :
      (p : K) (a : ℕ) (m : HashMap K ℕ) (q : K)
      → tally q ((p, a) ∷ m) ≡ (if q == p then a else 0) + tally q m
  unfolding tally
  tally-cons p a m q = refl

  -- In a map the sum under a key is the amount that is found.
  pub tally-get :
      (q : K) (v : ℕ) (m : HashMap K ℕ) → count q m ≤ 1 → get q m ≡ some v → tally q m ≡ v
  unfolding tally count get
  tally-get q v [] h g = ground arith
  tally-get q v (x ∷ m) h g = ground (arith, tally-get q v m, tally-eq-zero q m)

  pub tally-erase :
      (k q : K) (v : ℕ) (m : HashMap K ℕ)
      → get k m ≡ some v
      → tally q (erase k m) + (if q == k then v else 0) ≡ tally q m
  unfolding tally get erase
  tally-erase k q v [] h = ground arith
  tally-erase k q v (x ∷ m) h =
      ground (arith, tally-erase k q v m, e.beq_iff q k, e.beq_iff k x.0, e.beq_iff q x.0)

  pub tally-insert :
      (k q : K) (v : ℕ) (m : HashMap K ℕ)
      → count q m ≤ 1
      → tally q (insert k v m) ≡ (if q == k then v else tally q m)
  unfolding tally count insert
  tally-insert k q v [] h = ground arith
  tally-insert k q v (x ∷ m) h = ground (
    arith,
    tally-insert k q v m,
    tally-eq-zero q m,
    e.beq_iff q k,
    e.beq_iff k x.0,
    e.beq_iff q x.0,
  )

  insert-fresh :
      (k q : K) (v : ℕ) (m : HashMap K ℕ) (xs : List (K × ℕ))
      → count q m + count q ((k, v) ∷ xs) ≤ 1
      → (tally q (insert k v m) + tally q xs ≡ tally q m + tally q ((k, v) ∷ xs))
        × (count q (insert k v m) + count q xs ≤ 1)
  insert-fresh k q v m xs h =
      unfold count tally in
      ground (arith, tally-insert k q v m, count-insert k q v m, tally-eq-zero q m)

  -- Entries with distinct keys, none of them in the map, are added as they are.
  pub collect_into-tally :
      (m : HashMap K ℕ) (xs : List (K × ℕ))
      → ((q : K) → count q m + count q xs ≤ 1)
      → (q : K)
      → (tally q (collect_into m xs) ≡ tally q m + tally q xs) × (count q (collect_into m xs) ≤ 1)
  unfolding collect_into
  collect_into-tally m [] h q = unfold count tally in ground (arith, h q)
  collect_into-tally m (x ∷ xs) h q =
      let rest =
        collect_into-tally (insert x.0 x.1 m) xs (λ j. (insert-fresh x.0 j x.1 m xs (h j)).1) q in
      (omega (arith, rest.0, (insert-fresh x.0 q x.1 m xs (h q)).0), rest.1)

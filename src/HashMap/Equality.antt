-- ===== src/HashMap/Equality.antt =====
-- What equality of maps means: the same lookups, in whatever order the entries stand.
use naumachia.Prelude.{
  suc, ◌≡◌, refl, true, some, [], ◌∷◌, arith, Eq, length, all, All, option_beq, option_beq_iff,
}
use naumachia.HashMap.{HashMap, get, erase, map_beq, IsMap}
use naumachia.HashMap.Laws.{get-cons, get-erase_ne, All-erase, count-tail_zero, tail-IsMap}

module _ {ℓ κ} {K : Type ℓ} {V : Type κ} ⦃e : Eq K⦄ where
  length-erase :
      (k : K) (v : V) (m : HashMap K V) → get k m ≡ some v → suc (length (erase k m)) ≡ length m
  unfolding get erase
  length-erase k v [] g = ground arith
  length-erase k v (x ∷ m) g = ground (arith, length-erase k v m)

  same-gets :
      (m n : HashMap K V)
      → IsMap m
      → length m ≡ length n
      → All (λ x. get x.0 n ≡ some x.1) m
      → (q : K) → get q m ≡ get q n
  same-gets [] [] once len h q = refl
  same-gets [] (y ∷ n) once len h q = absurd (omega arith)
  same-gets ((k, v) ∷ m) n once len (now, later) q =
      let rest =
        same-gets m (erase k n) (tail-IsMap k v m once) (omega (arith, length-erase k v n now))
          (All-erase (λ o w. o ≡ some w) k n m (count-tail_zero k v m once) later) q in
      ground (arith, rest, get-cons k q v m, get-erase_ne k q n, e.beq_iff q k)

  module _ ⦃d : Eq V⦄ where
    All-of-all :
        (m n : HashMap K V)
        → all (λ x. option_beq (get x.0 n) (some x.1)) m ≡ true
        → All (λ x. get x.0 n ≡ some x.1) m
    All-of-all [] n h = tt
    All-of-all ((k, v) ∷ m) n h =
        ((option_beq_iff (get k n) (some v)).0 (ground arith), All-of-all m n (ground arith))

    -- Equal maps answer every lookup alike.
    pub get-of-map_beq :
        (m n : HashMap K V) → IsMap m → map_beq m n ≡ true → (q : K) → get q m ≡ get q n
    unfolding map_beq
    get-of-map_beq m n once h = same-gets m n once (ground arith) (All-of-all m n (ground arith))

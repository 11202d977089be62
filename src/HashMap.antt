-- ===== src/HashMap.antt =====
-- `std::collections::HashMap` as a list of entries: the iteration order, which the library leaves
-- open, is the order of the list.
use naumachia.Prelude.{
  ℕ, ◌+◌, ◌≤◌, ◌≡◌, refl, Bool, true, false, ◌&&◌, Option, none, some, List, [], ◌∷◌, ◌++◌, arith,
  if◌then◌else◌, Eq, ◌==◌, option_beq, length, all, sum_of, nat_beq,
}
pub mod Laws
pub mod Equality

abbrev pub HashMap {ℓ κ} : Type ℓ → Type κ → Type (ℓ ⊔ κ)
HashMap K V = List (K × V)

module _ {ℓ κ} {K : Type ℓ} {V : Type κ} ⦃e : Eq K⦄ where
  -- `HashMap::get`
  unfoldable pub get : K → HashMap K V → Option V
  get k [] = none
  get k (x ∷ m) = if k == x.0 then some x.1 else get k m

  -- `HashMap::insert`
  unfoldable pub insert : K → V → HashMap K V → HashMap K V
  insert k v [] = (k, v) ∷ []
  insert k v (x ∷ m) = if k == x.0 then (x.0, v) ∷ m else x ∷ insert k v m

  -- What `HashMap::remove` leaves; what it returns is `get`.
  unfoldable pub erase : K → HashMap K V → HashMap K V
  erase k [] = []
  erase k (x ∷ m) = if k == x.0 then m else x ∷ erase k m

  -- `collect` into a map.
  unfoldable pub collect_into : HashMap K V → List (K × V) → HashMap K V
  unfolding insert
  collect_into m [] = m
  collect_into m (x ∷ xs) = collect_into (insert x.0 x.1 m) xs

  -- `HashMap: PartialEq`: equal sizes, and each entry of one is found in the other.
  unfoldable pub map_beq : ⦃d : Eq V⦄ → HashMap K V → HashMap K V → Bool
  unfolding get
  map_beq m n = nat_beq (length m) (length n) && all (λ x. option_beq (get x.0 n) (some x.1)) m

module _ {ℓ} {K : Type ℓ} ⦃e : Eq K⦄ where
  -- The sum of the amounts under a key, and how many entries the key has.
  unfoldable pub tally : K → List (K × ℕ) → ℕ
  tally q = sum_of (λ x. if q == x.0 then x.1 else 0)

  unfoldable pub count {κ} : {V : Type κ} → K → List (K × V) → ℕ
  count q = sum_of (λ x. if q == x.0 then 1 else 0)

-- A map has one entry to a key.
abbrev pub IsMap {ℓ κ} : {K : Type ℓ} {V : Type κ} ⦃e : Eq K⦄ → List (K × V) → Type ℓ
IsMap {K = K} m = (q : K) → count q m ≤ 1

-- ===== src/Values/Add.antt =====
-- Sums of values (src/values.rs): `add_one_value`, `add_values`.
use naumachia.Prelude.{
  ℕ, ◌+◌, ◌%◌, ◌^◌, ◌≤◌, ◌<◌, ◌≡◌, List, [], ◌∷◌, arith, add_u64, u64_mod, sym, if◌then◌else◌, ◌==◌,
  ==-refl, Option-cases, inl, inr, All, none, some, ap,
}
use naumachia.HashMap.{get, tally, count}
use naumachia.HashMap.Laws.{
  insert-IsMap, tally-cons, tally-insert, tally-get, tally-eq-zero, count-eq-zero,
}
use naumachia.PolicyId.{PolicyId, policy_eq, policy_beq_iff}
use naumachia.Values.{
  Values, empty, add_to_map, add_one_value, add_entries, add_values, IsValid, amount,
}

-- In a valid bag the amount is the sum of the entries of its policy.
pub amount-eq-tally : (v : Values) (q : PolicyId) → IsValid v → amount v q ≡ tally q v.values
amount-eq-tally v q h = elim (Option-cases (get q v.values)) [
  | inl e ↦ rw (amount, e) (sym (tally-eq-zero q v.values (count-eq-zero q v.values e)))
  | inr (a, e) ↦ rw (amount, e) (sym (tally-get q a v.values (h.distinct q) e))
]

pub empty-IsValid : IsValid empty
unfolding empty tally count
empty-IsValid = record { distinct = λ q. omega arith; bounded = λ q. omega arith }

-- Adding to a policy changes that amount alone, modulo 2^64.
pub tally-add_one_value :
    (v : Values) (p : PolicyId) (a : ℕ) (q : PolicyId)
    → IsValid v
    → a < u64_mod
    → tally q (add_one_value v p a).values ≡ (tally q v.values + (if q == p then a else 0)) % 2 ^ 64
unfolding add_one_value
tally-add_one_value v p a q h lt = elim (Option-cases (get p v.values)) [
  | inl e ↦
      rw (add_to_map, e, tally-insert p q a v.values (h.distinct q))
        (ground (
          arith,
          h.bounded q,
          policy_beq_iff q p,
          tally-eq-zero p v.values,
          count-eq-zero p v.values,
        ))
  | inr (t, e) ↦
      rw (add_to_map, e, tally-insert p q (add_u64 a t) v.values (h.distinct q))
        (ground (arith, h.bounded q, policy_beq_iff q p, tally-get p t v.values (h.distinct p) e))
]

pub add_one_value-IsValid :
    (v : Values) (p : PolicyId) (a : ℕ) → a < u64_mod → IsValid v → IsValid (add_one_value v p a)
add_one_value-IsValid v p a lt h = record {
  distinct = unfold add_one_value in insert-IsMap p _ v.values h.distinct;
  bounded = λ q. rw (tally-add_one_value v p a q h lt) (omega arith);
}

tail-le-tally :
    (p : PolicyId) (a : ℕ) (xs : List (PolicyId × ℕ)) (q : PolicyId)
    → tally q xs ≤ tally q ((p, a) ∷ xs)
unfolding tally
tail-le-tally p a xs q = omega arith

head-le-tally : (p : PolicyId) (a : ℕ) (xs : List (PolicyId × ℕ)) → a ≤ tally p ((p, a) ∷ xs)
unfolding tally
head-le-tally p a xs = rw (==-refl p) (omega arith)

-- Entries whose amounts fit are added policy by policy.
pub add_entries-IsValid :
    (v : Values) (xs : List (PolicyId × ℕ))
    → IsValid v
    → ((q : PolicyId) → tally q xs < u64_mod)
    → IsValid (add_entries v xs)
unfolding add_entries
add_entries-IsValid v [] h fits = h
add_entries-IsValid v ((p, a) ∷ xs) h fits =
    add_entries-IsValid (add_one_value v p a) xs
      (add_one_value-IsValid v p a (omega (arith, head-le-tally p a xs, fits p)) h)
      (λ q. omega (arith, tail-le-tally p a xs q, fits q))

pub tally-add_entries :
    (v : Values) (xs : List (PolicyId × ℕ)) (q : PolicyId)
    → IsValid v
    → ((j : PolicyId) → tally j xs < u64_mod)
    → tally q (add_entries v xs).values ≡ (tally q v.values + tally q xs) % 2 ^ 64
unfolding add_entries
tally-add_entries v [] q h fits = unfold tally in omega (arith, h.bounded q)
tally-add_entries v ((p, a) ∷ xs) q h fits =
    let small : a < u64_mod = omega (arith, head-le-tally p a xs, fits p) in
    let rest =
      tally-add_entries (add_one_value v p a) xs q (add_one_value-IsValid v p a small h)
        (λ j. omega (arith, tail-le-tally p a xs j, fits j)) in
    omega (arith, rest, tally-add_one_value v p a q h small, tally-cons p a xs q)

pub add_values-IsValid : (v w : Values) → IsValid v → IsValid w → IsValid (add_values v w)
unfolding add_values
add_values-IsValid v w h k = add_entries-IsValid v w.values h k.bounded

-- For valid bags, `add_values` adds the amounts of every policy, modulo 2^64.
pub amount-add_values :
    (v w : Values) (q : PolicyId)
    → IsValid v
    → IsValid w
    → amount (add_values v w) q ≡ (amount v q + amount w q) % 2 ^ 64
amount-add_values v w q h k =
    rw
      (
        amount-eq-tally (add_values v w) q (add_values-IsValid v w h k),
        amount-eq-tally v q h,
        amount-eq-tally w q k,
      )
      (unfold add_values in tally-add_entries v w.values q h k.bounded)

-- Every listed amount of a valid bag is a u64.
pub entries_fit :
    (xs : List (PolicyId × ℕ))
    → ((q : PolicyId) → tally q xs < u64_mod)
    → All (λ x. x.1 < u64_mod) xs
entries_fit [] h = tt
entries_fit ((p, a) ∷ xs) h = (
  omega (arith, head-le-tally p a xs, h p),
  entries_fit xs (λ q. omega (arith, tail-le-tally p a xs q, h q)),
)

pub amount-lt : (v : Values) (q : PolicyId) → IsValid v → amount v q < u64_mod
amount-lt v q h = omega (arith, amount-eq-tally v q h, h.bounded q)

-- To a valid bag and for a u64 amount, `add_one_value` adds the amount to its policy, modulo 2^64,
-- and leaves the amounts of the others.
pub amount-add_one_value :
    (v : Values) (p : PolicyId) (a : ℕ) (q : PolicyId)
    → IsValid v
    → a < u64_mod
    → amount (add_one_value v p a) q ≡ (amount v q + (if q == p then a else 0)) % 2 ^ 64
amount-add_one_value v p a q h lt =
    rw
      (
        amount-eq-tally (add_one_value v p a) q (add_one_value-IsValid v p a lt h),
        amount-eq-tally v q h,
      )
      (tally-add_one_value v p a q h lt)

-- An amount, by what the map lists.
pub amount-absent : (v : Values) (q : PolicyId) → get q v.values ≡ none → amount v q ≡ 0
amount-absent v q e = ap (λ o. elim o [ none ↦ 0 | some a ↦ a ]) e

pub amount-listed : (v : Values) (q : PolicyId) (b : ℕ) → get q v.values ≡ some b → amount v q ≡ b
amount-listed v q b e = ap (λ o. elim o [ none ↦ 0 | some a ↦ a ]) e

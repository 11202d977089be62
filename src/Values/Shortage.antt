-- ===== src/Values/Shortage.antt =====
-- When `try_subtract` fails, and that it returns otherwise (src/values.rs).
use naumachia.Prelude.{
  ℕ, ◌≤◌, ◌<◌, ◌≡◌, ◌≢◌, refl, Option, none, some, List, [], ◌∷◌, arith, ==-refl, Option-cases, ◌⊎◌,
  inl, inr, ok, err, panic, >>=-eq-err, ok-of-ne, >>=-eq-panic,
}
use naumachia.HashMap.{get, erase, IsMap}
use naumachia.HashMap.Laws.{get-cons, get-erase_ne, tail-IsMap, tail_apart}
use naumachia.PolicyId.{PolicyId, policy_eq}
use naumachia.Errors.{Error, insufficient_amount_of}
use naumachia.Values.{
  Values, Remainders, subtract_one, subtract_entries, start_of, try_subtract, IsValid, amount,
  get_value,
}

-- How the entries of a list stand to what a map holds: not more than it, or exactly as much.
abbrev AtLeast : Option ℕ → ℕ → Type 0
AtLeast none a = ⊥
AtLeast (some b) a = a ≤ b

not-AtLeast :
    (o : Option ℕ) (a : ℕ) → ¬ (AtLeast o a) → (o ≡ none) ⊎ (elim o [ none ↦ 0 | some b ↦ b ] < a)
not-AtLeast none a h = inl refl
not-AtLeast (some b) a h = inr (omega arith)

pub subtract_one-mine :
    (s : Remainders) (p : PolicyId) (a : ℕ) (s' : Remainders)
    → subtract_one s p a ≡ ok s'
    → s'.mine_cloned ≡ erase p s.mine_cloned
unfolding subtract_one
subtract_one-mine s p a s' e = elim (Option-cases (get p s.mine_cloned)) [
  | inl absent ↦ ground arith
  | inr (b, found) ↦ ground arith
]

-- A step fails only where there is too little, and the error names the policy.
subtract_one-fails :
    (s : Remainders) (p : PolicyId) (a : ℕ) (e : Error)
    → subtract_one s p a ≡ err e
    → (e ≡ insufficient_amount_of p) × ¬ (AtLeast (get p s.mine_cloned) a)
unfolding subtract_one
subtract_one-fails s p a e h = elim (Option-cases (get p s.mine_cloned)) [
  | inl absent ↦ ground arith
  | inr (b, found) ↦ ground arith
]

subtract_one-ne-panic : (s : Remainders) (p : PolicyId) (a : ℕ) → subtract_one s p a ≢ panic
unfolding subtract_one
subtract_one-ne-panic s p a h = elim (Option-cases (get p s.mine_cloned)) [
  | inl absent ↦ ground arith
  | inr (b, found) ↦ ground arith
]

-- The loop fails at an entry of which the bag held too little from the start.
subtract_entries-fails :
    (s : Remainders) (xs : List (PolicyId × ℕ)) (e : Error)
    → IsMap xs
    → subtract_entries s xs ≡ err e
    → (p : PolicyId) × (a : ℕ) × (e ≡ insufficient_amount_of p)
      × (get p xs ≡ some a)
      × ¬ (AtLeast (get p s.mine_cloned) a)
unfolding subtract_entries
subtract_entries-fails s [] e once h = cc
subtract_entries-fails s ((p, a) ∷ xs) e once h = elim (>>=-eq-err (subtract_one s p a) _ h) [
  | inl now ↦
      let (named, short) = subtract_one-fails s p a e now in
      (p, a, named, rw (get-cons p p a xs, ==-refl p), short)
  | inr (t, step, later) ↦
      let (j, b, named, found, short) =
        subtract_entries-fails t xs e (tail-IsMap p a xs once) later in
      let apart = tail_apart p j a b xs once found in
      (
        j,
        b,
        named,
        rw (get-cons p j a xs, apart) found,
        λ h. short (rw (subtract_one-mine s p a t step, get-erase_ne p j s.mine_cloned apart) h),
      )
]

subtract_entries-ne-panic :
    (s : Remainders) (xs : List (PolicyId × ℕ)) → subtract_entries s xs ≢ panic
unfolding subtract_entries
subtract_entries-ne-panic s [] h = cc
subtract_entries-ne-panic s ((p, a) ∷ xs) h = elim (>>=-eq-panic (subtract_one s p a) _ h) [
  | inl now ↦ subtract_one-ne-panic s p a now
  | inr (t, step, later) ↦ subtract_entries-ne-panic t xs later
]

-- Where the other bag is valid, `try_subtract` fails only with `InsufficientAmountOf` a policy of
-- which the other bag lists an amount and this one has less, or lists nothing.
pub try_subtract_fails :
    (self other : Values) (e : Error)
    → IsValid other
    → try_subtract self other ≡ err e
    → (p : PolicyId) × (a : ℕ) × (e ≡ insufficient_amount_of p)
      × (get_value other p ≡ some a)
      × ((get_value self p ≡ none) ⊎ (amount self p < a))
unfolding try_subtract get_value
try_subtract_fails self other e k h =
    let loop : subtract_entries (start_of self other) other.values ≡ err e = ground (arith, h) in
    let (p, a, named, found, short) =
      subtract_entries-fails (start_of self other) other.values e k.distinct loop in
    (p, a, named, found, not-AtLeast (get p self.values) a short)

pub try_subtract-ne-panic : (self other : Values) → try_subtract self other ≢ panic
unfolding try_subtract
try_subtract-ne-panic self other h =
    elim (>>=-eq-panic (subtract_entries (start_of self other) other.values) _ h) [
      | inl loop ↦ subtract_entries-ne-panic (start_of self other) other.values loop
      | inr (s, run, end) ↦ cc
    ]

not-short :
    (o : Option ℕ) (a b : ℕ)
    → o ≡ some b
    → a ≤ b
    → (o ≡ none) ⊎ (elim o [ none ↦ 0 | some c ↦ c ] < a)
    → ⊥
not-short none a b e h s = cc
not-short (some c) a b e h (inl s) = cc
not-short (some c) a b e h (inr s) = ground arith

-- Where a bag holds at least what another, valid one lists, policy by policy, `try_subtract` returns,
-- with or without a difference.
pub try_subtract_covered :
    (self other : Values)
    → IsValid other
    → ((p : PolicyId) (a : ℕ)
        → get_value other p ≡ some a
        → (b : ℕ) × (get_value self p ≡ some b) × (a ≤ b))
    → (d : Option Values) × (try_subtract self other ≡ ok d)
unfolding get_value
try_subtract_covered self other k covers =
    ok-of-ne (try_subtract self other)
      (λ e h.
        let (p, a, _, found, short) = try_subtract_fails self other e k h in
        let (b, held, enough) = covers p a found in
        not-short (get p self.values) a b held enough short)
      (λ h. try_subtract-ne-panic self other h)

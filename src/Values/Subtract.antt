-- ===== src/Values/Subtract.antt =====
-- `try_subtract` (src/values.rs): exact differences, the errors, and when it returns `None`.
use naumachia.Prelude.{
  ℕ, ◌+◌, ◌-◌, ◌≤◌, ◌≡◌, some, List, [], ◌∷◌, ◌++◌, arith, if◌then◌else◌, ◌==◌, Option-cases, inl,
  inr, ok, >>=-eq-ok, ok-inj,
}
use naumachia.HashMap.{get, collect_into, tally, count}
use naumachia.HashMap.Laws.{
  tally-cons, tally-nil, tally-append, count-append, tally-erase, count-erase, collect_into-tally,
}
use naumachia.PolicyId.{PolicyId, policy_eq}
use naumachia.Values.{
  Values, Remainders, subtract_one, subtract_entries, start_of, difference, try_subtract, IsValid,
  amount,
}
use naumachia.Values.Add.{amount-eq-tally}

-- What is left over of a policy, in the loop.
abbrev left : PolicyId → Remainders → ℕ
left q s = tally q s.remainders + tally q s.mine_cloned

abbrev places : PolicyId → Remainders → ℕ
places q s = count q s.remainders + count q s.mine_cloned

-- One step takes an amount of one policy from what is left, and adds no entry.
subtract_one-left :
    (s : Remainders) (p : PolicyId) (a : ℕ) (s' : Remainders) (q : PolicyId)
    → subtract_one s p a ≡ ok s'
    → (left q s' + (if q == p then a else 0) ≡ left q s) × (places q s' ≤ places q s)
unfolding subtract_one tally count
subtract_one-left s p a s' q e = elim (Option-cases (get p s.mine_cloned)) [
  | inl absent ↦ ground arith
  | inr (b, found) ↦ ground (
    arith,
    tally-append q s.remainders ((p, b - a) ∷ []),
    count-append q s.remainders ((p, b - a) ∷ []),
    tally-erase p q b s.mine_cloned found,
    count-erase p q b s.mine_cloned found,
  )
]

subtract_entries-left :
    (s : Remainders) (xs : List (PolicyId × ℕ)) (s' : Remainders) (q : PolicyId)
    → subtract_entries s xs ≡ ok s'
    → (left q s' + tally q xs ≡ left q s) × (places q s' ≤ places q s)
unfolding subtract_entries
subtract_entries-left s [] s' q e =
    rw (ok-inj e) (omega (arith, tally-nil {K = PolicyId} q), omega arith)
subtract_entries-left s ((p, a) ∷ xs) s' q e =
    let (t, step, rest) = >>=-eq-ok (subtract_one s p a) _ e in
    let h = subtract_one-left s p a t q step in
    let k = subtract_entries-left t xs s' q rest in
    (omega (arith, h.0, k.0, tally-cons p a xs q), omega (arith, h.1, k.1))

difference-some :
    (s : Remainders) (r : Values)
    → difference s ≡ some r
    → r ≡ record { values = collect_into [] (s.remainders ++ s.mine_cloned) }
difference-some s r e = ground arith

-- The difference lists what is left, policy by policy.
difference-left :
    (s : Remainders) (r : Values)
    → difference s ≡ some r
    → ((q : PolicyId) → places q s ≤ 1)
    → (q : PolicyId) → (tally q r.values ≡ left q s) × (count q r.values ≤ 1)
difference-left s r e once q =
    let all = s.remainders ++ s.mine_cloned in
    let h =
      collect_into-tally [] all
        (λ j. unfold count in omega (arith, once j, count-append j s.remainders s.mine_cloned)) q in
    rw (difference-some s r e)
      (unfold tally in omega (arith, h.0, tally-append q s.remainders s.mine_cloned), h.1)

-- For valid bags, a difference that `try_subtract` returns is exact: it is a valid bag, and what was
-- taken and what is left make up what there was, for every policy.
pub try_subtract_exact :
    (self other r : Values)
    → IsValid self
    → IsValid other
    → try_subtract self other ≡ ok (some r)
    → IsValid r × ((q : PolicyId) → amount r q + amount other q ≡ amount self q)
unfolding try_subtract
try_subtract_exact self other r h k e =
    let (s, run, end) = >>=-eq-ok (subtract_entries (start_of self other) other.values) _ e in
    let loop = λ (q : PolicyId). subtract_entries-left (start_of self other) other.values s q run in
    let read =
      difference-left s r (ok-inj end)
        (λ q. unfold count in omega (arith, (loop q).1, h.distinct q)) in
    let total = λ (q : PolicyId).
      let eq : tally q r.values + tally q other.values ≡ tally q self.values =
        unfold tally in omega (arith, (read q).0, (loop q).0) in
      eq in
    let valid : IsValid r = record {
      distinct = λ q. (read q).1;
      bounded = λ q. omega (arith, total q, h.bounded q);
    } in
    (
      valid,
      λ q. omega (
        arith,
        total q,
        amount-eq-tally r q valid,
        amount-eq-tally self q h,
        amount-eq-tally other q k,
      ),
    )

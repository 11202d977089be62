-- ===== src/Values/Nothing.antt =====
-- When `try_subtract` returns `None` (src/values.rs): exactly where every listed amount is matched,
-- whatever else the bag holds.
use naumachia.Values.Shortage.{subtract_one-mine}
use naumachia.Prelude.{
  ℕ, ◌≡◌, refl, false, Option, none, some, List, [], ◌∷◌, arith, Option-cases, inl, inr, ok, ◌>>=◌,
  >>=-eq-ok, ok-inj, All, ◌∙◌,
}
use naumachia.HashMap.{HashMap, get, erase, IsMap}
use naumachia.HashMap.Laws.{
  get-cons, get-of-erase, All-erase, All-of-get, tail-IsMap, count-tail_zero, erase-IsMap,
}
use naumachia.PolicyId.{PolicyId, policy_eq, policy_beq_iff}
use naumachia.Values.{
  Values, is_empty, Remainders, subtract_one, subtract_entries, start_of, difference, try_subtract,
  IsValid, get_value,
}

-- Every listed amount is held exactly.
abbrev Exactly : Option ℕ → ℕ → Type 0
Exactly o a = o ≡ some a

AllExact : HashMap PolicyId ℕ → List (PolicyId × ℕ) → Type 0
AllExact m xs = All (λ x. Exactly (get x.0 m) x.1) xs

-- A step that marks no difference met the exact amount.
subtract_one-unmarked :
    (s : Remainders) (p : PolicyId) (a : ℕ) (s' : Remainders)
    → subtract_one s p a ≡ ok s'
    → s'.there_is_a_difference ≡ false
    → (s.there_is_a_difference ≡ false) × (get p s.mine_cloned ≡ some a)
unfolding subtract_one
subtract_one-unmarked s p a s' e f = elim (Option-cases (get p s.mine_cloned)) [
  | inl absent ↦ ground arith
  | inr (b, found) ↦ ground arith
]

subtract_one-exact :
    (s : Remainders) (p : PolicyId) (a : ℕ)
    → get p s.mine_cloned ≡ some a
    → subtract_one s p a ≡ ok (record s { mine_cloned = erase p s.mine_cloned })
unfolding subtract_one
subtract_one-exact s p a e = ground arith

subtract_entries-exact :
    (s : Remainders) (xs : List (PolicyId × ℕ))
    → IsMap xs
    → AllExact s.mine_cloned xs
    → (s' : Remainders) × (subtract_entries s xs ≡ ok s')
      × (s'.there_is_a_difference ≡ s.there_is_a_difference)
unfolding subtract_entries AllExact
subtract_entries-exact s [] once h = (s, refl, refl)
subtract_entries-exact s ((p, a) ∷ xs) once (now, later) =
    let t : Remainders = record s { mine_cloned = erase p s.mine_cloned } in
    let (s', run, same) =
      subtract_entries-exact t xs (tail-IsMap p a xs once)
        (All-erase Exactly p s.mine_cloned xs (count-tail_zero p a xs once) later) in
    (s', rw (subtract_one-exact s p a now) run, same)

found_before :
    (m xs : HashMap PolicyId ℕ) (p : PolicyId) (a : ℕ) (q : PolicyId) (b : ℕ)
    → IsMap m
    → get p m ≡ some a
    → (get q xs ≡ some b → get q (erase p m) ≡ some b)
    → get q ((p, a) ∷ xs) ≡ some b
    → get q m ≡ some b
found_before m xs p a q b own now later g =
    ground (arith, get-cons p q a xs, get-of-erase p q b m (own q), policy_beq_iff q p)

unmarked : (s : Remainders) → difference s ≡ none → s.there_is_a_difference ≡ false
unmarked s e = ground arith

unmarked_none : (s : Remainders) → s.there_is_a_difference ≡ false → difference s ≡ none
unmarked_none s e = ground arith

subtract_entries-unmarked :
    (s : Remainders) (xs : List (PolicyId × ℕ)) (s' : Remainders)
    → IsMap xs
    → IsMap s.mine_cloned
    → subtract_entries s xs ≡ ok s'
    → s'.there_is_a_difference ≡ false
    → (s.there_is_a_difference ≡ false)
      × ((q : PolicyId) (b : ℕ) → get q xs ≡ some b → get q s.mine_cloned ≡ some b)
unfolding subtract_entries
subtract_entries-unmarked s [] s' once own e f = (rw (ok-inj e) f, λ q b g. unfold get in cc)
subtract_entries-unmarked s ((p, a) ∷ xs) s' once own e f =
    let (t, step, rest) = >>=-eq-ok (subtract_one s p a) _ e in
    let mine = subtract_one-mine s p a t step in
    let (flag, all) =
      subtract_entries-unmarked t xs s' (tail-IsMap p a xs once)
        (rw mine (erase-IsMap p s.mine_cloned own)) rest f in
    let (flag', now) = subtract_one-unmarked s p a t step flag in
    (flag', λ q b g. found_before s.mine_cloned xs p a q b own now (λ h. rw (← mine) (all q b h)) g)

-- For valid bags, `try_subtract` returns `None` only if the other bag lists something, and everything
-- that it lists is held in exactly that amount.
pub try_subtract-none :
    (self other : Values)
    → IsValid self
    → IsValid other
    → try_subtract self other ≡ ok none
    → (is_empty other ≡ false)
      × ((q : PolicyId) (b : ℕ) → get_value other q ≡ some b → get_value self q ≡ some b)
unfolding try_subtract get_value
try_subtract-none self other h k e =
    let (s, run, end) = >>=-eq-ok (subtract_entries (start_of self other) other.values) _ e in
    subtract_entries-unmarked (start_of self other) other.values s k.distinct h.distinct run
      (unmarked s (ok-inj end))

-- Where a valid bag lists something, and another bag holds each listed amount exactly, `try_subtract`
-- returns `None`, whatever else the other bag holds: that is not handed back.
pub try_subtract_drops_rest :
    (self other : Values)
    → IsValid other
    → is_empty other ≡ false
    → ((q : PolicyId) (b : ℕ) → get_value other q ≡ some b → get_value self q ≡ some b)
    → try_subtract self other ≡ ok none
unfolding try_subtract get_value
try_subtract_drops_rest self other k some_listed h =
    let (s, run, same) =
      subtract_entries-exact (start_of self other) other.values k.distinct
        (unfold AllExact in All-of-get Exactly self.values other.values k.distinct h) in
    rw (run, ◌>>=◌) (rw (unmarked_none s (same ∙ some_listed)))

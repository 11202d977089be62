-- ===== src/Values.antt =====
-- Bags of tokens (src/values.rs): one u64 amount for each policy. Sums wrap at 2^64, as compiled
-- without overflow checks.
use naumachia.Prelude.{
  ℕ, ◌-◌, ◌<◌, Bool, true, false, Option, none, some, List, [], ◌∷◌, ◌++◌, add_u64, u64_mod, length,
  nat_beq, if◌then◌else◌, Outcome, ok, err, ◌>>=◌,
}
use Prim.Native.Nat.{compare, Ordering}
use naumachia.HashMap.{HashMap, get, insert, erase, collect_into, tally, IsMap}
use naumachia.PolicyId.{PolicyId, policy_eq}
use naumachia.Errors.{Error, insufficient_amount_of}
pub mod Add
pub mod Subtract
pub mod Shortage
pub mod Nothing

pub record Values : Type 0 where
  pub values : HashMap PolicyId ℕ

-- `Values::default`
unfoldable pub empty : Values
empty = record { values = [] }

unfoldable pub add_to_map : HashMap PolicyId ℕ → PolicyId → ℕ → HashMap PolicyId ℕ
add_to_map h_map policy amount =
    let new_total : ℕ = elim (get policy h_map) [
      | none ↦ amount
      | some total ↦ add_u64 amount total
    ] in
    insert policy new_total h_map

unfoldable pub add_one_value : Values → PolicyId → ℕ → Values
unfolding add_to_map
add_one_value v policy amount = record { values = add_to_map v.values policy amount }

unfoldable pub add_entries : Values → List (PolicyId × ℕ) → Values
add_entries v [] = v
add_entries v ((policy, amt) ∷ entries) = add_entries (add_one_value v policy amt) entries

unfoldable pub add_values : Values → Values → Values
unfolding add_entries
add_values v other = add_entries v other.values

unfoldable pub vec : Values → List (PolicyId × ℕ)
vec v = v.values

-- `Values::get`
unfoldable pub get_value : Values → PolicyId → Option ℕ
get_value v policy = get policy v.values

-- `Values::take`: what it returns, and what is left.
unfoldable pub take_value : Values → PolicyId → Option ℕ × Values
take_value v policy = (get policy v.values, record { values = erase policy v.values })

unfoldable pub len : Values → ℕ
len v = length v.values

unfoldable pub is_empty : Values → Bool
unfolding len
is_empty v = nat_beq (len v) 0

-- The variables of the loop of `try_subtract`.
pub record Remainders : Type 0 where
  pub remainders : List (PolicyId × ℕ)
  pub mine_cloned : HashMap PolicyId ℕ
  pub there_is_a_difference : Bool

pub subtract_one : Remainders → PolicyId → ℕ → Outcome Error Remainders
subtract_one s policy amt = elim (get policy s.mine_cloned) [
  | none ↦ err (insufficient_amount_of policy)
  | some available ↦ elim (compare amt available) [
    | Ordering.lt ↦ ok (record {
      remainders = s.remainders ++ (policy, available - amt) ∷ [];
      mine_cloned = erase policy s.mine_cloned;
      there_is_a_difference = true;
    })
    | Ordering.gt ↦ err (insufficient_amount_of policy)
    | Ordering.eq ↦ ok (record s { mine_cloned = erase policy s.mine_cloned })
  ]
]

pub subtract_entries : Remainders → List (PolicyId × ℕ) → Outcome Error Remainders
unfolding subtract_one
subtract_entries s [] = ok s
subtract_entries s ((policy, amt) ∷ entries) =
    subtract_one s policy amt >>= λ s'. subtract_entries s' entries

-- The variables before the loop; with nothing to take away there is a difference at once.
abbrev pub start_of : Values → Values → Remainders
start_of self other = record {
  remainders = [];
  mine_cloned = self.values;
  there_is_a_difference = is_empty other;
}

-- What is made of them after it.
abbrev pub difference : Remainders → Option Values
difference s =
    let values = collect_into [] (s.remainders ++ s.mine_cloned) in
    if s.there_is_a_difference then some (record { values = values }) else none

unfoldable pub try_subtract : Values → Values → Outcome Error (Option Values)
unfolding subtract_entries is_empty
try_subtract self other = do
  s ← subtract_entries (start_of self other) other.values
  ok (difference s)

-- A map of u64 amounts, which every value of the Rust type is.
pub record IsValid (v : Values) : Type 0 where
  pub distinct : IsMap v.values
  pub bounded : (q : PolicyId) → tally q v.values < u64_mod

-- The amount of a policy; nothing is listed for a policy that is absent.
abbrev pub amount : Values → PolicyId → ℕ
amount v policy = elim (get policy v.values) [ none ↦ 0 | some a ↦ a ]

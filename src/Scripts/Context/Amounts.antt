-- ===== src/Scripts/Context/Amounts.antt =====
-- What a context's value holds of each asset (src/scripts/context.rs).
use naumachia.Values.Add.{amount-eq-tally, entries_fit}
use naumachia.Prelude.{
  ℕ, ◌+◌, ◌%◌, ◌^◌, ◌<◌, ◌≡◌, refl, ◌&&◌, none, some, List, [], ◌∷◌, String, string_eq, arith,
  sum_of, u64_mod, if◌then◌else◌, ◌==◌, Option-cases, inl, inr, All, add_u64, ◌≢◌, ==-refl,
}
use naumachia.HashMap.{HashMap, get, insert, erase, tally}
use naumachia.HashMap.Laws.{get-insert, get-erase_ne}
use naumachia.PolicyId.{PolicyId, lovelace, native_token, policy_eq}
use naumachia.Values.{Values, IsValid, amount}
use naumachia.Scripts.Context.Nested.{NestedMap, add_asset, add_to_nested, ctx_key, ctx_inner}
use naumachia.Scripts.Context.{ctx_value}

abbrev asset_amount : String → HashMap String ℕ → ℕ
asset_amount name assets = elim (get name assets) [ none ↦ 0 | some a ↦ a ]

-- The amount under a policy id and an asset name, 0 where there is none.
abbrev pub nested_amount : String → String → NestedMap → ℕ
nested_amount policy name m = elim (get policy m) [
  | none ↦ 0
  | some assets ↦ asset_amount name assets
]

asset_amount-add :
    (assets : HashMap String ℕ) (name n : String) (amt : ℕ)
    → amt < u64_mod
    → asset_amount n assets < u64_mod
    → asset_amount n (add_asset assets name amt)
      ≡ (asset_amount n assets + (if n == name then amt else 0)) % 2 ^ 64
unfolding add_asset
asset_amount-add assets name n amt lt bound = elim (Option-cases (get name assets)) [
  | inl e ↦ ground (arith, get-insert name n amt assets, string_eq.beq_iff n name)
  | inr (t, e) ↦ ground (
    arith,
    get-insert name n (add_u64 t amt) (erase name assets),
    string_eq.beq_iff n name,
    get-erase_ne name n assets,
  )
]

asset_amount-nil : (n : String) → asset_amount n [] ≡ 0
unfolding get
asset_amount-nil n = refl

nested_amount-nil : (p n : String) → nested_amount p n [] ≡ 0
unfolding get
nested_amount-nil p n = refl

-- Adding to one asset changes that amount alone, modulo 2^64.
nested_amount-add :
    (m : NestedMap) (policy name : String) (amt : ℕ) (p n : String)
    → amt < u64_mod
    → nested_amount p n m < u64_mod
    → nested_amount p n (add_to_nested m policy name amt)
      ≡ (nested_amount p n m + (if (p == policy) && (n == name) then amt else 0)) % 2 ^ 64
unfolding add_to_nested
nested_amount-add m policy name amt p n lt bound = elim (Option-cases (get policy m)) [
  | inl e ↦ ground (
    arith,
    get-insert policy p (insert name amt []) m,
    get-insert name n amt [],
    asset_amount-nil n,
    string_eq.beq_iff p policy,
  )
  | inr (assets, e) ↦ ground (
    arith,
    get-insert policy p (add_asset assets name amt) (erase policy m),
    asset_amount-add assets name n amt lt,
    string_eq.beq_iff p policy,
    get-erase_ne policy p m,
  )
]

-- What the entries of a bag put under a policy id and an asset name.
keyed : String → String → PolicyId × ℕ → ℕ
keyed p n x = if (p == (ctx_key x.0).0) && (n == (ctx_key x.0).1) then x.1 else 0

ctx_inner-amount :
    (m : NestedMap) (xs : List (PolicyId × ℕ)) (p n : String)
    → All (λ x. x.1 < u64_mod) xs
    → nested_amount p n m < u64_mod
    → nested_amount p n (ctx_inner m xs) ≡ (nested_amount p n m + sum_of (keyed p n) xs) % 2 ^ 64
unfolding ctx_inner keyed
ctx_inner-amount m [] p n fits bound = omega arith
ctx_inner-amount m ((policy, amt) ∷ xs) p n (fit, fits) bound =
    let k = ctx_key policy in
    let step = nested_amount-add m k.0 k.1 amt p n fit bound in
    let rest = ctx_inner-amount (add_to_nested m k.0 k.1 amt) xs p n fits (rw step (omega arith)) in
    omega (arith, step, rest)

-- Only one policy goes under a policy id and an asset name that is not empty.
keyed-named :
    (p n : String) (xs : List (PolicyId × ℕ))
    → n ≢ ""
    → sum_of (keyed p n) xs ≡ tally (native_token p (some n)) xs
unfolding keyed ctx_key tally
keyed-named p n [] h = refl
keyed-named p n ((lovelace, a) ∷ xs) h =
    ground (arith, keyed-named p n xs h, string_eq.beq_iff n "")
keyed-named p n ((native_token q none, a) ∷ xs) h =
    ground (arith, keyed-named p n xs h, string_eq.beq_iff n "")
keyed-named p n ((native_token q (some m), a) ∷ xs) h = ground (arith, keyed-named p n xs h)

-- Under a policy id and no asset name go the policy without a name and the one with an empty name.
keyed-unnamed :
    (p : String) (xs : List (PolicyId × ℕ))
    → p ≢ ""
    → sum_of (keyed p "") xs ≡ tally (native_token p none) xs + tally (native_token p (some "")) xs
unfolding keyed ctx_key tally
keyed-unnamed p [] h = omega arith
keyed-unnamed p ((lovelace, a) ∷ xs) h =
    ground (arith, keyed-unnamed p xs h, string_eq.beq_iff p "")
keyed-unnamed p ((native_token q none, a) ∷ xs) h =
    ground (arith, keyed-unnamed p xs h, ==-refl {A = String} "")
keyed-unnamed p ((native_token q (some m), a) ∷ xs) h =
    ground (arith, keyed-unnamed p xs h, string_eq.beq_iff "" m)

-- Of a valid bag, and under a policy id that is not empty, the context shows a token with a name that
-- is not empty in its exact amount, and under the empty name the sum, modulo 2^64, of the token
-- without a name and the one with an empty name.
pub ctx_value_amounts :
    (v : Values) (p n : String)
    → IsValid v
    → p ≢ ""
    → n ≢ ""
    → (nested_amount p n (ctx_value v).inner ≡ amount v (native_token p (some n)))
      × (nested_amount p "" (ctx_value v).inner
          ≡ (amount v (native_token p none) + amount v (native_token p (some ""))) % 2 ^ 64)
unfolding ctx_value
ctx_value_amounts v p n h hp hn =
    let all = λ (m : String).
      ctx_inner-amount [] v.values p m (entries_fit v.values h.bounded)
        (rw (nested_amount-nil p m) (omega arith)) in
    (
      omega (
        arith,
        all n,
        nested_amount-nil p n,
        keyed-named p n v.values hn,
        h.bounded (native_token p (some n)),
        amount-eq-tally v (native_token p (some n)) h,
      ),
      omega (
        arith,
        all "",
        nested_amount-nil p "",
        keyed-unnamed p v.values hp,
        amount-eq-tally v (native_token p none) h,
        amount-eq-tally v (native_token p (some "")) h,
      ),
    )

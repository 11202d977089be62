-- ===== src/Transaction/Payments.antt =====
-- What `to_unbuilt_tx` pays to wallets (src/transaction.rs, src/transaction/nested_value_map.rs).
use naumachia.Prelude.{
  ℕ, ◌+◌, ◌%◌, ◌^◌, ◌<◌, ◌≡◌, ap, ◌∙◌, ◌&&◌, none, some, List, [], ◌∷◌, String, string_eq, arith,
  ok, expect, ok-inj, >>=-eq-ok, Bool-cases, Option-cases, inl, inr, ◌==◌, if◌then◌else◌, u64_mod,
  sum_of, All,
}
use naumachia.HashMap.{get, insert}
use naumachia.HashMap.Laws.{get-insert}
use naumachia.Address.{AddressLib}
use naumachia.PolicyId.{PolicyId, policy_eq}
use naumachia.Values.{Values, empty, add_one_value, IsValid, amount}
use naumachia.Values.Add.{add_one_value-IsValid, amount-add_one_value, amount-lt}
use naumachia.Transaction.{
  Action, transfer, mint, init_script, redeem_script_output, specific_input, Building, OutputMap,
  pay, build_action, build_actions, add_amount_to_nested_map,
}

-- The bag of an owner; an empty one where there is none.
abbrev pub bag_of : String → OutputMap → Values
bag_of owner m = elim (get owner m) [ none ↦ empty | some v ↦ v ]

-- Every bag of the map is a valid one.
abbrev pub ValidBags : OutputMap → Type 0
ValidBags m = (owner : String) → IsValid (bag_of owner m)

pay-insert :
    (m : OutputMap) (owner : String) (p : PolicyId) (a : ℕ)
    → pay m owner p a ≡ insert owner (add_one_value (bag_of owner m) p a) m
unfolding pay
pay-insert m owner p a = elim (Option-cases (get owner m)) [
  | inl absent ↦ rw (pay, bag_of, absent)
  | inr (v, found) ↦ rw (pay, bag_of, found)
]

bag_of-pay :
    (m : OutputMap) (owner o : String) (p : PolicyId) (a : ℕ)
    → bag_of o (pay m owner p a)
      ≡ (if o == owner then add_one_value (bag_of owner m) p a else bag_of o m)
bag_of-pay m owner o p a =
    rw (pay-insert m owner p a, bag_of, get-insert owner o (add_one_value (bag_of owner m) p a) m)
      (elim (Bool-cases (o == owner)) [ inl same ↦ rw same | inr other ↦ rw other ])

-- Paying keeps the bags valid and raises one amount of one owner, modulo 2^64.
pay-amount :
    (m : OutputMap) (owner o : String) (p q : PolicyId) (a : ℕ)
    → ValidBags m
    → a < u64_mod
    → ValidBags (pay m owner p a)
      × (amount (bag_of o (pay m owner p a)) q
          ≡ (amount (bag_of o m) q + (if (o == owner) && (q == p) then a else 0)) % 2 ^ 64)
pay-amount m owner o p q a h fits = (
  λ x. rw (bag_of-pay m owner x p a) (elim (Bool-cases (x == owner)) [
    | inl same ↦ rw same (add_one_value-IsValid (bag_of owner m) p a fits (h owner))
    | inr other ↦ rw other (h x)
  ]),
  ap (λ v. amount v q) (bag_of-pay m owner o p a) ∙ elim (Bool-cases (o == owner)) [
    | inl same ↦
        let here = (string_eq.beq_iff o owner).0 same in
        rw (same, here) (amount-add_one_value (bag_of owner m) p a q (h owner) fits)
    | inr other ↦ rw other (omega (arith, amount-lt (bag_of o m) q (h o)))
  ],
)

module _ {A D R : Type 0} ⦃lib : AddressLib A⦄ where
  -- What an action pays to an owner in a policy.
  abbrev pub paid_by : String → PolicyId → Action A D R → ℕ
  paid_by o q (transfer amt recipient policy) = elim (lib.to_bech32 recipient) [
    | some owner ↦ if (o == owner) && (q == policy) then amt else 0
    | none ↦ 0
  ]
  paid_by o q _ = 0

  -- A transfer is of a u64 amount.
  abbrev pub FitsU64 : Action A D R → Type 0
  FitsU64 (transfer amt recipient policy) = amt < u64_mod
  FitsU64 _ = Unit

  build_action-pays :
      (b b' : Building A D R) (action : Action A D R) (o : String) (q : PolicyId)
      → ValidBags b.min_output_values
      → FitsU64 action
      → build_action b action ≡ ok b'
      → ValidBags b'.min_output_values
        × (amount (bag_of o b'.min_output_values) q
            ≡ (amount (bag_of o b.min_output_values) q + paid_by o q action) % 2 ^ 64)
  unfolding build_action add_amount_to_nested_map
  build_action-pays b b' (transfer amt recipient policy) o q h fits e =
      let (m, pays, end) =
        >>=-eq-ok (add_amount_to_nested_map b.min_output_values amt recipient policy) _ e in
      elim (Option-cases (lib.to_bech32 recipient)) [
        | inl nothing ↦ absurd (cc (rw nothing at pays))
        | inr (owner, encoded) ↦
            let now : pay b.min_output_values owner policy amt ≡ m = ok-inj (rw encoded at pays) in
            rw (← ok-inj end, ← now, paid_by, encoded)
              (pay-amount b.min_output_values owner o policy q amt h fits)
      ]
  build_action-pays b b' (mint amt asset_name redeemer policy) o q h fits e =
      rw (← ok-inj e) (h, omega (arith, amount-lt _ q (h o)))
  build_action-pays b b' (init_script datum values address) o q h fits e =
      let (owner, encoded, end) = >>=-eq-ok (expect (lib.to_bech32 address)) _ e in
      rw (← ok-inj end) (h, omega (arith, amount-lt _ q (h o)))
  build_action-pays b b' (redeem_script_output output redeemer script) o q h fits e =
      rw (← ok-inj e) (h, omega (arith, amount-lt _ q (h o)))
  build_action-pays b b' (specific_input input) o q h fits e =
      rw (← ok-inj e) (h, omega (arith, amount-lt _ q (h o)))

  -- Where a run over actions, with u64 amounts and from a map of valid bags, returns, the bags it
  -- leaves are valid, and each owner's bag holds of each policy what it held and the sum of the
  -- transfers of that policy to that owner, modulo 2^64.
  pub build_actions-pays :
      (b b' : Building A D R) (actions : List (Action A D R)) (o : String) (q : PolicyId)
      → ValidBags b.min_output_values
      → All FitsU64 actions
      → build_actions b actions ≡ ok b'
      → ValidBags b'.min_output_values
        × (amount (bag_of o b'.min_output_values) q
            ≡ (amount (bag_of o b.min_output_values) q + sum_of (paid_by o q) actions) % 2 ^ 64)
  unfolding build_actions
  build_actions-pays b b' [] o q h fits e = rw (← ok-inj e) (h, omega (arith, amount-lt _ q (h o)))
  build_actions-pays b b' (action ∷ actions) o q h (fit, fits) e =
      let (mid, one, rest) = >>=-eq-ok (build_action b action) _ e in
      let (valid, first) = build_action-pays b mid action o q h fit one in
      let (valid', more) = build_actions-pays mid b' actions o q valid fits rest in
      (valid', omega (arith, first, more))

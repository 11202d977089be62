-- ===== src/Minting/OneShot.antt =====
-- What minting an NFT does (sample-dApps/mint_nft/src/logic.rs).
use naumachia.Prelude.{
  ℕ, ◌<◌, ◌≤◌, ◌≡◌, refl, arith, ◌⊎◌, inl, inr, Option, none, some, List, [], ◌∷◌, ◌++◌, All, ok,
  err, ltb, true, false, some-inj, ok_or, map_err, ◌∙◌, if◌then◌else◌,
}
use naumachia.Errors.{ScLogicError, input_not_found, policy_script, failed_to_construct}
use naumachia.Effects.{◌>>=◌, Run, >>=-of-ok, >>=-of-err, call-of-ok, call, lift, return}
use naumachia.PolicyId.{lovelace}
use naumachia.Values.{get_value}
use naumachia.Scripts.{MintingPolicy}
use naumachia.Output.{Output}
use naumachia.Transaction.{v2, tx_actions, with_mint, with_specific_input}
use naumachia.Logic.{OutputReference, output_reference, endpoint_dapp, endpoint_lc}
use naumachia.CheckingAccount.Owner.{last_above_min, min_lovelace}
use naumachia.Minting.{UnitActions, UnitClient, impl_mint, select_any_above_min}

-- An output that holds more than five million lovelace.
pub record HoldsEnough {D : Type 0} (o : Output D) : Type 0 where
  pub held : ℕ
  pub listed : get_value o.values lovelace ≡ some held
  pub above : 5000000 < held

-- The last output of a list that holds enough.
pub record IsLastAbove {D : Type 0} (outputs : List (Output D)) (o : Output D) : Type 0 where
  pub before : List (Output D)
  pub after : List (Output D)
  pub parted : outputs ≡ before ++ o ∷ after
  pub enough : HoldsEnough o
  pub later : All (λ p. ¬ HoldsEnough p) after

-- The test of one number against another.
compare_lt : (a b : ℕ) → ((a < b) × (ltb a b ≡ true)) ⊎ ((b ≤ a) × (ltb a b ≡ false))
compare_lt a b = ground arith

-- Whether a lookup found more than five million.
found-cases :
    {D : Type 0} (o : Output D) (v : Option ℕ)
    → ((n : ℕ) × (v ≡ some n) × (5000000 < n) × (ltb min_lovelace n ≡ true))
      ⊎ (((n : ℕ) → v ≡ some n → n ≤ 5000000)
          × ((elim v [ some n ↦ if ltb min_lovelace n then some o else none | none ↦ none ])
              ≡ none))
found-cases o none = inr ((λ n h. cc), refl)
found-cases o (some m) = elim (compare_lt 5000000 m) [
  | inl (above, t) ↦ inl (m, refl, above, t)
  | inr (below, f) ↦ inr ((λ n h. omega (arith, below, some-inj h)), rw (f) refl)
]

last_above_min-cases :
    {D : Type 0} (outputs : List (Output D))
    → ((o : Output D) × (last_above_min outputs ≡ some o) × IsLastAbove outputs o)
      ⊎ ((last_above_min outputs ≡ none) × All (λ p. ¬ HoldsEnough p) outputs)
unfolding last_above_min
last_above_min-cases [] = inr (refl, tt)
last_above_min-cases (input ∷ outputs) = elim (last_above_min-cases outputs) [
  | inl (o, e, h) ↦ inl (
    o,
    rw (e) refl,
    record {
      before = input ∷ h.before;
      after = h.after;
      parted = rw (h.parted) refl;
      enough = h.enough;
      later = h.later;
    },
  )
  | inr (e, h) ↦ elim (found-cases input (get_value input.values lovelace)) [
    | inl (n, p, q, t) ↦ inl (
      input,
      rw (e, p, t) refl,
      record {
        before = [];
        after = outputs;
        parted = refl;
        enough = record { held = n; listed = p; above = q };
        later = h;
      },
    )
    | inr (below, none_taken) ↦
        inr (rw (e) none_taken, ((λ k. omega (arith, k.above, below k.held k.listed)), h))
  ]
]

module _ {A : Type 0} (policies : OutputReference → MintingPolicy A (Unit {0})) where
  -- The actions that mint the token of an output and spend it.
  abbrev pub minting : Output (Unit {0}) → UnitActions A
  minting o =
      with_specific_input
        (with_mint (tx_actions v2) 1 (some "OneShot") tt (policies (output_reference o))) o

module _ {A S : Type 0} (policies : OutputReference → MintingPolicy A (Unit {0}))
    (client : UnitClient A S) (me : A) (outputs : List (Output (Unit {0}))) (s t u : S)
    (signer : client.signer_base_address s ≡ (ok me, t))
    (listed : client.all_outputs_at_address me t ≡ (ok outputs, u)) where
  abbrev policy_found : OutputReference → Option (MintingPolicy A (Unit {0}))
  policy_found r = some (policies r)

  -- What is done with the input that is found.
  abbrev spent : Output (Unit {0}) → Run S ScLogicError (UnitActions A)
  spent my_input = lift (map_err policy_script (ok policy_found)) >>= λ param_script.
      lift (ok_or (param_script (output_reference my_input)) (policy_script failed_to_construct))
      >>= λ policy.
          return
            (with_specific_input (with_mint (tx_actions v2) 1 (some "OneShot") tt policy) my_input)

  select_any_above_min-last :
      select_any_above_min (ok (λ r. some (policies r))) client s
      ≡ (ok_or (last_above_min outputs) (endpoint_dapp input_not_found), u)
  unfolding select_any_above_min
  select_any_above_min-last =
      >>=-of-ok (call endpoint_lc client.signer_base_address)
        (λ x. call endpoint_lc (client.all_outputs_at_address x) >>= λ found.
          lift (ok_or (last_above_min found) (endpoint_dapp input_not_found)))
        s (call-of-ok endpoint_lc client.signer_base_address s signer)
      ∙ >>=-of-ok (call endpoint_lc (client.all_outputs_at_address me))
          (λ found. lift (ok_or (last_above_min found) (endpoint_dapp input_not_found))) t
          (call-of-ok endpoint_lc (client.all_outputs_at_address me) t listed)

  -- Where the client gives the signer's address and its outputs, and every output has a policy, minting
  -- spends the last output that holds more than five million lovelace and mints one token of the
  -- policy that belongs to that output; where no output holds as much, it fails with `InputNotFound`.
  pub impl_mint-branches :
      ((o : Output (Unit {0})) × IsLastAbove outputs o
        × (impl_mint (ok (λ r. some (policies r))) client s ≡ (ok (minting policies o), u)))
      ⊎ (All (λ o. ¬ HoldsEnough o) outputs
          × (impl_mint (ok (λ r. some (policies r))) client s
              ≡ (err (endpoint_dapp input_not_found), u)))
  unfolding impl_mint
  impl_mint-branches = elim (last_above_min-cases outputs) [
    | inl (o, e, h) ↦ inl (
      o,
      h,
      >>=-of-ok (select_any_above_min (ok policy_found) client) spent s
          (select_any_above_min-last ∙ rw (e) refl),
    )
    | inr (e, h) ↦ inr (
      h,
      >>=-of-err (select_any_above_min (ok policy_found) client) spent s
          (select_any_above_min-last ∙ rw (e) refl),
    )
  ]

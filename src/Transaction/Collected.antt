-- ===== src/Transaction/Collected.antt =====
-- What `to_unbuilt_tx` collects of the actions (src/transaction.rs).
use naumachia.Prelude.{◌≡◌, refl, sym, ap, ◌∙◌, List, [], ◌∷◌, ◌++◌, ok, expect, ok-inj, >>=-eq-ok}
use mathlib.Core.List.{append_assoc, append-nil}
use naumachia.Address.{AddressLib}
use naumachia.Output.{Output}
use naumachia.Transaction.{
  Action, transfer, mint, init_script, redeem_script_output, specific_input, TxActions,
  UnbuiltTransaction, Minting, RedemptionDetails, Building, build_action, build_actions,
  to_unbuilt_tx, add_amount_to_nested_map, create_outputs_for, nested_map_to_vecs,
}

module _ {A D R : Type 0} where
  -- What an action adds to the mintings, the script inputs and the wallet inputs.
  abbrev pub minted_by : Action A D R → List (Minting A R)
  minted_by (mint amount asset_name redeemer policy) = (amount, asset_name, redeemer, policy) ∷ []
  minted_by _ = []

  abbrev pub redeemed_by : Action A D R → List (RedemptionDetails A D R)
  redeemed_by (redeem_script_output output redeemer script) = (output, redeemer, script) ∷ []
  redeemed_by _ = []

  abbrev pub spent_by : Action A D R → List (Output D)
  spent_by (specific_input input) = input ∷ []
  spent_by _ = []

  -- What all the actions add, in their order.
  abbrev pub collect : {B : Type 0} → (Action A D R → List B) → List (Action A D R) → List B
  collect f [] = []
  collect f (action ∷ actions) = f action ++ collect f actions

module _ {A D R : Type 0} ⦃lib : AddressLib A⦄ where
  build_action-grows :
      (b b' : Building A D R) (action : Action A D R)
      → build_action b action ≡ ok b'
      → (b'.minting ≡ b.minting ++ minted_by action)
        × (b'.script_inputs ≡ b.script_inputs ++ redeemed_by action)
        × (b'.specific_wallet_inputs ≡ b.specific_wallet_inputs ++ spent_by action)
  unfolding build_action
  build_action-grows b b' (transfer amount recipient policy) e =
      let (m, paid, end) =
        >>=-eq-ok (add_amount_to_nested_map b.min_output_values amount recipient policy) _ e in
      rw (← ok-inj end) (sym (append-nil _), sym (append-nil _), sym (append-nil _))
  build_action-grows b b' (mint amount asset_name redeemer policy) e =
      rw (← ok-inj e) (refl, sym (append-nil _), sym (append-nil _))
  build_action-grows b b' (init_script datum values address) e =
      let (owner, encoded, end) = >>=-eq-ok (expect (lib.to_bech32 address)) _ e in
      rw (← ok-inj end) (sym (append-nil _), sym (append-nil _), sym (append-nil _))
  build_action-grows b b' (redeem_script_output output redeemer script) e =
      rw (← ok-inj e) (sym (append-nil _), refl, sym (append-nil _))
  build_action-grows b b' (specific_input input) e =
      rw (← ok-inj e) (sym (append-nil _), sym (append-nil _), refl)

  build_actions-grows :
      (b b' : Building A D R) (actions : List (Action A D R))
      → build_actions b actions ≡ ok b'
      → (b'.minting ≡ b.minting ++ collect minted_by actions)
        × (b'.script_inputs ≡ b.script_inputs ++ collect redeemed_by actions)
        × (b'.specific_wallet_inputs ≡ b.specific_wallet_inputs ++ collect spent_by actions)
  unfolding build_actions
  build_actions-grows b b' [] e =
      rw (← ok-inj e) (sym (append-nil _), sym (append-nil _), sym (append-nil _))
  build_actions-grows b b' (action ∷ actions) e =
      let (mid, one, rest) = >>=-eq-ok (build_action b action) _ e in
      let (m, r, w) = build_action-grows b mid action one in
      let (m', r', w') = build_actions-grows mid b' actions rest in
      (
        m'
            ∙ ap (λ xs. xs ++ collect minted_by actions) m
            ∙ append_assoc b.minting (minted_by action) (collect minted_by actions),
        r'
            ∙ ap (λ xs. xs ++ collect redeemed_by actions) r
            ∙ append_assoc b.script_inputs (redeemed_by action) (collect redeemed_by actions),
        w'
            ∙ ap (λ xs. xs ++ collect spent_by actions) w
            ∙ append_assoc b.specific_wallet_inputs (spent_by action) (collect spent_by actions),
      )

  -- The transaction that `to_unbuilt_tx` returns has the script version and the validity range of
  -- the actions, and all that they mint, redeem and spend, each in the order of the actions.
  pub to_unbuilt_tx-collects :
      (tx : TxActions A D R) (u : UnbuiltTransaction A D R)
      → to_unbuilt_tx tx ≡ ok u
      → (u.script_version ≡ tx.script_version)
        × (u.valid_range ≡ tx.valid_range)
        × (u.minting ≡ collect minted_by tx.actions)
        × (u.script_inputs ≡ collect redeemed_by tx.actions)
        × (u.specific_wallet_inputs ≡ collect spent_by tx.actions)
  unfolding to_unbuilt_tx
  to_unbuilt_tx-collects tx u e =
      let (b, built, e') = >>=-eq-ok (build_actions _ tx.actions) _ e in
      let (outputs, paid, end) =
        >>=-eq-ok (create_outputs_for lib (nested_map_to_vecs b.min_output_values)) _ e' in
      let (m, r, w) = build_actions-grows _ b tx.actions built in
      rw (← ok-inj end) (refl, refl, m, r, w)

-- ===== src/CheckingAccount/Withdrawals.antt =====
-- What withdrawing and funding do (sample-dApps/checking_account/src/withdraw.rs,
-- endpoints/fund_account.rs).
use naumachia.Prelude.{
  ℕ, ◌+◌, ◌%◌, ◌^◌, ◌<◌, ◌≡◌, refl, ◌∙◌, ◌⊎◌, inl, inr, none, some, if◌then◌else◌, ◌==◌, u64_mod,
  ok, err,
}
use naumachia.Errors.{insufficient_amount_of, OutputId, output_not_found}
use naumachia.Effects.{◌>>=◌, >>=-of-ok, lift, return}
use naumachia.PolicyId.{lovelace, policy_eq, PolicyId}
use naumachia.Values.{Values, IsValid, amount, add_one_value, get_value}
use naumachia.Values.Add.{amount-add_one_value}
use naumachia.Scripts.{Validator}
use naumachia.Output.{Output, typed_datum}
use naumachia.Transaction.{v2, tx_actions, with_script_init, with_script_redeem}
use naumachia.Logic.{endpoint_dapp, endpoint_error}
use naumachia.CheckingAccount.{CheckingAccountScripts, Actions, Client}
use naumachia.CheckingAccount.Datum.{CheckingAccountDatums}
use naumachia.CheckingAccount.Owner.{
  account_output, datum_at, without_lovelace, fund_account, withdraw_from_account,
}
use naumachia.CheckingAccount.Amounts.{TakesLovelace, without_lovelace-TakesLovelace}

module _ {A S : Type 0} (scripts : CheckingAccountScripts A) (client : Client A S) where
  -- The account is put back with another bag, in one transaction that spends it.
  abbrev pub replaced :
      Validator A CheckingAccountDatums (Unit {0})
      → A
      → Output CheckingAccountDatums
      → CheckingAccountDatums
      → Values
      → Actions A
  replaced validator address output datum values =
      with_script_init (with_script_redeem (tx_actions v2) output tt validator) datum values address

  module _ (id : OutputId) (n : ℕ) (s t : S)
      (validator : Validator A CheckingAccountDatums (Unit {0})) (address : A)
      (output : Output CheckingAccountDatums) (datum : CheckingAccountDatums)
      (located : account_output scripts client id s ≡ (ok (validator, address, output), t))
      (typed : typed_datum output ≡ some datum) where
    withdraw_from_account-at :
        withdraw_from_account scripts client id n s
        ≡ (lift (without_lovelace id output.values n) >>= λ new_value.
              return (replaced validator address output datum new_value))
            t
    unfolding withdraw_from_account datum_at
    withdraw_from_account-at =
        >>=-of-ok (account_output scripts client id)
          (λ (v, a, o). lift (datum_at id o) >>= λ new_datum.
            lift (without_lovelace id o.values n) >>= λ new_value.
            return (replaced v a o new_datum new_value))
          s located
        ∙ >>=-of-ok (lift (datum_at id output))
            (λ new_datum. lift (without_lovelace id output.values n) >>= λ new_value.
              return (replaced validator address output new_datum new_value))
            t (rw (typed) refl)

    -- For an account with a typed datum and a valid bag, and a u64 amount, a withdrawal that returns
    -- gives actions that spend the account and put it back, at its address and with its datum, with a
    -- bag that has exactly the amount of lovelace less and as much of everything else; where the
    -- account lists exactly that much lovelace, it fails with `OutputNotFound`; and otherwise with
    -- `InsufficientAmountOf` lovelace, of which the account lists none or less than the amount.
    pub withdraw_from_account-branches :
        IsValid output.values
        → n < u64_mod
        → ((w : Values) × (withdraw_from_account scripts client id n s
              ≡ (ok (replaced validator address output datum w), t))
            × ((q : PolicyId)
                → amount w q + (if q == lovelace then n else 0) ≡ amount output.values q))
          ⊎ ((withdraw_from_account scripts client id n s
                ≡ (err (endpoint_dapp (output_not_found id)), t))
              × (get_value output.values lovelace ≡ some n))
          ⊎ ((withdraw_from_account scripts client id n s
                ≡ (err (endpoint_error (insufficient_amount_of lovelace)), t))
              × ((get_value output.values lovelace ≡ none) ⊎ (amount output.values lovelace < n)))
    unfolding TakesLovelace
    withdraw_from_account-branches valid small =
        elim (without_lovelace-TakesLovelace id output.values n valid small) [
          | inl (w, e, exact) ↦ inl (w, withdraw_from_account-at ∙ rw (e) refl, exact)
          | inr (inl (e, all_of_it)) ↦ inr (inl (withdraw_from_account-at ∙ rw (e) refl, all_of_it))
          | inr (inr (e, short)) ↦ inr (inr (withdraw_from_account-at ∙ rw (e) refl, short))
        ]

    -- For an account with a typed datum and a valid bag, and a u64 amount, funding gives actions that
    -- spend the account and put it back, at its address and with its datum, with a bag that has the
    -- amount of lovelace more, modulo 2^64, and as much of everything else.
    pub fund_account-adds :
        IsValid output.values
        → n < u64_mod
        → (fund_account scripts client id n s ≡ (
          ok (replaced validator address output datum (add_one_value output.values lovelace n)),
          t,
        ))
          × ((q : PolicyId)
              → amount (add_one_value output.values lovelace n) q
                ≡ (amount output.values q + (if q == lovelace then n else 0)) % 2 ^ 64)
    unfolding fund_account datum_at
    fund_account-adds valid small = (
      >>=-of-ok (account_output scripts client id)
            (λ (v, a, o). lift (datum_at id o) >>= λ new_datum.
              return (replaced v a o new_datum (add_one_value o.values lovelace n)))
            s located
          ∙ >>=-of-ok (lift (datum_at id output))
              (λ new_datum. return (
                replaced validator address output new_datum
                  (add_one_value output.values lovelace n)))
              t (rw (typed) refl),
      λ q. amount-add_one_value output.values lovelace n q valid small,
    )

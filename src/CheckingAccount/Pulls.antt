-- ===== src/CheckingAccount/Pulls.antt =====
-- What a pull does (sample-dApps/checking_account/src/endpoints/pull.rs).
use naumachia.Prelude.{
  ℕ, ◌+◌, ◌<◌, ◌≡◌, refl, ◌∙◌, true, false, Bool-cases, ◌⊎◌, inl, inr, none, some, if◌then◌else◌,
  ◌==◌, u64_mod, ok, err,
}
use naumachia.Prelude.Int.{ℤ, add_i64, div_i64, ltb_ℤ}
use naumachia.Address.{Network}
use naumachia.Errors.{
  insufficient_amount_of, OutputId, output_not_found, too_early_to_pull, ScLogicError,
  from_ledger_client,
}
use naumachia.Effects.{Run, ◌>>=◌, ◌>>◌, >>=-of-ok, call-of-ok, lift, return, call}
use naumachia.PolicyId.{lovelace, policy_eq, PolicyId}
use naumachia.Values.{Values, IsValid, amount, get_value}
use naumachia.Scripts.{Validator}
use naumachia.Output.{Output, typed_datum}
use naumachia.Transaction.{
  v2, tx_actions, with_script_init, with_script_redeem, with_valid_range_secs,
}
use naumachia.Logic.{endpoint_dapp, endpoint_error, endpoint_lc}
use naumachia.CheckingAccount.{CheckingAccountScripts, Actions, Client}
use naumachia.CheckingAccount.Datum.{CheckingAccountDatums, AllowedPuller, allowed_puller}
use naumachia.CheckingAccount.Owner.{datum_at, without_lovelace}
use naumachia.CheckingAccount.Pull.{next_puller, check_due, locked_output, pull_from_account}
use naumachia.CheckingAccount.Amounts.{TakesLovelace, without_lovelace-TakesLovelace}

-- A located output: its validator, its address, the output.
abbrev pub Located : Type 0 → Type 0
Located A = Validator A CheckingAccountDatums (Unit {0}) × A × Output CheckingAccountDatums

-- The actions of a pull, by what the puller's output and the account become.
abbrev pub pulled :
    {A : Type 0}
    → Located A
    → CheckingAccountDatums
    → Located A
    → CheckingAccountDatums
    → Values
    → ℤ
    → Actions A
pulled (pull, pull_address, allowed) next (validator, address, account) datum left now =
    let pulling = with_script_redeem (tx_actions v2) allowed tt pull in
    let put_back = with_script_init pulling next allowed.values pull_address in
    let redeeming = with_script_redeem put_back account tt validator in
    let both = with_script_init redeeming datum left address in
    with_valid_range_secs both (some (div_i64 now 1000)) none

-- A puller whose next time is one period later.
abbrev pub later : AllowedPuller → AllowedPuller
later d = record d { next_pull = add_i64 d.next_pull d.period }

module _ {A S : Type 0} (scripts : CheckingAccountScripts A) (client : Client A S)
    (puller_id account_id : OutputId) (n : ℕ) (s s0 s1 s2 t : S) (network : Network)
    (allowed account : Located A) (d : AllowedPuller) (datum : CheckingAccountDatums) (now : ℤ)
    (on : client.network s ≡ (ok network, s0))
    (puller_located : locked_output scripts client scripts.pull_validator network puller_id s0
      ≡ (ok allowed, s1))
    (account_located : locked_output scripts client scripts.checking_account_validator network
        account_id s1
      ≡ (ok account, s2))
    (puller_typed : typed_datum allowed.2 ≡ some (allowed_puller d))
    (account_typed : typed_datum account.2 ≡ some datum)
    (timed : client.current_time_secs s2 ≡ (ok now, t)) where
  -- What follows once the outputs, the datums and the time are known.
  abbrev pub ending :
      Located A
      → CheckingAccountDatums
      → Located A
      → CheckingAccountDatums
      → ℤ
      → Run S ScLogicError (Actions A)
  unfolding without_lovelace
  ending x next y kept time = lift (without_lovelace account_id y.2.values n) >>= λ left.
      return (pulled x next y kept left time)

  pull_from_account-at :
      pull_from_account scripts client puller_id account_id n s
      ≡ (lift (check_due d.next_pull now)
            >> ending allowed (allowed_puller (later d)) account datum now)
          t
  unfolding pull_from_account datum_at next_puller ending
  pull_from_account-at =
      >>=-of-ok (call from_ledger_client client.network)
        (λ net. locked_output scripts client scripts.pull_validator net puller_id >>= λ x.
          locked_output scripts client scripts.checking_account_validator net account_id >>= λ y.
          lift (datum_at puller_id x.2) >>= λ old. lift (next_puller old) >>= λ (due, next).
          call endpoint_lc client.current_time_secs >>= λ time.
          lift (check_due due time)
          >> (lift (datum_at account_id y.2) >>= λ kept. ending x next y kept time))
        s (call-of-ok from_ledger_client client.network s on)
      ∙ >>=-of-ok (locked_output scripts client scripts.pull_validator network puller_id)
          (λ x.
            locked_output scripts client scripts.checking_account_validator network account_id
            >>= λ y. lift (datum_at puller_id x.2) >>= λ old.
                lift (next_puller old) >>= λ (due, next).
                call endpoint_lc client.current_time_secs >>= λ time.
                lift (check_due due time)
                >> (lift (datum_at account_id y.2) >>= λ kept. ending x next y kept time))
          s0 puller_located
      ∙ >>=-of-ok
          (locked_output scripts client scripts.checking_account_validator network account_id)
          (λ y. lift (datum_at puller_id allowed.2) >>= λ old.
            lift (next_puller old) >>= λ (due, next).
            call endpoint_lc client.current_time_secs >>= λ time.
            lift (check_due due time)
            >> (lift (datum_at account_id y.2) >>= λ kept. ending allowed next y kept time))
          s1 account_located
      ∙ rw (puller_typed) (
          >>=-of-ok (call endpoint_lc client.current_time_secs)
            (λ time.
              lift (check_due d.next_pull time)
              >> (lift (datum_at account_id account.2) >>= λ kept.
                  ending allowed (allowed_puller (later d)) account kept time))
            s2 (call-of-ok endpoint_lc client.current_time_secs s2 timed)
          ∙ rw (account_typed) refl)

  -- A pull whose two outputs, with their typed datums, and the current time are reported, from an
  -- account with a valid bag and of a u64 amount: before the puller's next time it fails with
  -- `TooEarlyToPull`; otherwise it gives actions that spend both outputs and put both back, the
  -- puller's with the next time one period later and all else as it was, the account's with its datum
  -- and with exactly the amount of lovelace less, valid from the current time divided by 1000; or it
  -- fails with `OutputNotFound` where the account lists exactly that much lovelace, and with
  -- `InsufficientAmountOf` lovelace where it lists none or less.
  pub pull_from_account-branches :
      IsValid account.2.values
      → n < u64_mod
      → ((ltb_ℤ now d.next_pull ≡ true)
          × (pull_from_account scripts client puller_id account_id n s
              ≡ (err (endpoint_dapp (too_early_to_pull d.next_pull now)), t)))
        ⊎ ((ltb_ℤ now d.next_pull ≡ false)
            × (((w : Values) × (pull_from_account scripts client puller_id account_id n s
                    ≡ (ok (pulled allowed (allowed_puller (later d)) account datum w now), t))
                  × ((q : PolicyId)
                      → amount w q + (if q == lovelace then n else 0) ≡ amount account.2.values q))
                ⊎ ((pull_from_account scripts client puller_id account_id n s
                      ≡ (err (endpoint_dapp (output_not_found account_id)), t))
                    × (get_value account.2.values lovelace ≡ some n))
                ⊎ ((pull_from_account scripts client puller_id account_id n s
                      ≡ (err (endpoint_error (insufficient_amount_of lovelace)), t))
                    × ((get_value account.2.values lovelace ≡ none)
                        ⊎ (amount account.2.values lovelace < n)))))
  unfolding check_due TakesLovelace ending
  pull_from_account-branches valid small = elim (Bool-cases (ltb_ℤ now d.next_pull)) [
    | inl early ↦ inl (early, pull_from_account-at ∙ rw (early) refl)
    | inr due ↦ inr (
      due,
      elim (without_lovelace-TakesLovelace account_id account.2.values n valid small) [
        | inl (w, e, exact) ↦ inl (w, pull_from_account-at ∙ rw (due, e) refl, exact)
        | inr (inl (e, all_of_it)) ↦ inr (inl (pull_from_account-at ∙ rw (due, e) refl, all_of_it))
        | inr (inr (e, short)) ↦ inr (inr (pull_from_account-at ∙ rw (due, e) refl, short))
      ],
    )
  ]

-- ===== src/Tests/Contracts.antt =====
-- The properties of contracts, each applied to concrete data.
use naumachia.Prelude.{
  ◌≡◌, ◌+◌, ◌%◌, ◌^◌, ◌<◌, ◌⊎◌, refl, arith, true, false, if◌then◌else◌, ◌==◌, none, some, ok, err,
}
use naumachia.Prelude.Int.{pos, ltb_ℤ}
use naumachia.Address.{testnet}
use naumachia.Errors.{output_not_found, insufficient_amount_of, too_early_to_pull}
use naumachia.PolicyId.{PolicyId, lovelace, policy_eq}
use naumachia.Values.{Values, add_one_value, amount, get_value}
use naumachia.Output.{typed_datum}
use naumachia.Logic.{endpoint_dapp, endpoint_error, find_output}
use naumachia.TestLedger.InMemory.{at_address}
use naumachia.TestLedger.Client.{test_ledger_client}
use naumachia.CheckingAccount.Datum.{allowed_puller}
use naumachia.CheckingAccount.Owner.{account_output, withdraw_from_account, fund_account}
use naumachia.CheckingAccount.Pull.{locked_output, pull_from_account}
use naumachia.CheckingAccount.Withdrawals.{
  replaced, withdraw_from_account-branches, fund_account-adds,
}
use naumachia.CheckingAccount.Pulls.{pulled, later, pull_from_account-branches}
use naumachia.Fixtures.Valid.{twelve_ada-IsValid}
use naumachia.Fixtures.Contracts.{
  open_at, scripts, account_datum, puller, account_id, puller_id, account, allowed, bank, client,
}

account_located :
    account_output scripts client account_id bank
    ≡ (ok (open_at "account", "account", account), bank)
unfolding account_output find_output at_address test_ledger_client
account_located = refl

account_typed : typed_datum account ≡ some account_datum
unfolding typed_datum
account_typed = refl

withdraw_from_account-branches_example :
    ((w : Values) × (withdraw_from_account scripts client account_id 4 bank ≡ (
      ok (replaced scripts client (open_at "account") "account" account account_datum w),
      bank,
    ))
      × ((q : PolicyId) → amount w q + (if q == lovelace then 4 else 0) ≡ amount account.values q))
    ⊎ ((withdraw_from_account scripts client account_id 4 bank
          ≡ (err (endpoint_dapp (output_not_found account_id)), bank))
        × (get_value account.values lovelace ≡ some 4))
    ⊎ ((withdraw_from_account scripts client account_id 4 bank
          ≡ (err (endpoint_error (insufficient_amount_of lovelace)), bank))
        × ((get_value account.values lovelace ≡ none) ⊎ (amount account.values lovelace < 4)))
withdraw_from_account-branches_example =
    withdraw_from_account-branches scripts client account_id 4 bank bank (open_at "account")
      "account" account account_datum account_located account_typed twelve_ada-IsValid (omega arith)

fund_account-adds_example :
    (fund_account scripts client account_id 4 bank ≡ (
      ok (
          replaced scripts client
            (open_at "account")
            "account"
            account
            account_datum
            (add_one_value account.values lovelace 4)),
      bank,
    ))
    × ((q : PolicyId)
        → amount (add_one_value account.values lovelace 4) q
          ≡ (amount account.values q + (if q == lovelace then 4 else 0)) % 2 ^ 64)
fund_account-adds_example =
    fund_account-adds scripts client account_id 4 bank bank (open_at "account") "account" account
      account_datum account_located account_typed twelve_ada-IsValid (omega arith)

puller_located :
    locked_output scripts client scripts.pull_validator testnet puller_id bank
    ≡ (ok (open_at "pull", "pull", allowed), bank)
unfolding locked_output find_output at_address test_ledger_client
puller_located = refl

account_locked :
    locked_output scripts client scripts.checking_account_validator testnet account_id bank
    ≡ (ok (open_at "account", "account", account), bank)
unfolding locked_output find_output at_address test_ledger_client
account_locked = refl

puller_typed : typed_datum allowed ≡ some (allowed_puller puller)
unfolding typed_datum
puller_typed = refl

on_testnet : client.network bank ≡ (ok testnet, bank)
unfolding test_ledger_client
on_testnet = refl

timed : client.current_time_secs bank ≡ (ok (pos 10000), bank)
unfolding test_ledger_client
timed = refl

pull_from_account-branches_example :
    ((ltb_ℤ (pos 10000) puller.next_pull ≡ true)
      × (pull_from_account scripts client puller_id account_id 4 bank
          ≡ (err (endpoint_dapp (too_early_to_pull puller.next_pull (pos 10000))), bank)))
    ⊎ ((ltb_ℤ (pos 10000) puller.next_pull ≡ false)
        × (((w : Values) × (pull_from_account scripts client puller_id account_id 4 bank ≡ (
          ok (
              pulled
                (open_at "pull", "pull", allowed)
                (allowed_puller (later puller))
                (open_at "account", "account", account)
                account_datum
                w
                (pos 10000)),
          bank,
        ))
              × ((q : PolicyId)
                  → amount w q + (if q == lovelace then 4 else 0) ≡ amount account.values q))
            ⊎ ((pull_from_account scripts client puller_id account_id 4 bank
                  ≡ (err (endpoint_dapp (output_not_found account_id)), bank))
                × (get_value account.values lovelace ≡ some 4))
            ⊎ ((pull_from_account scripts client puller_id account_id 4 bank
                  ≡ (err (endpoint_error (insufficient_amount_of lovelace)), bank))
                × ((get_value account.values lovelace ≡ none)
                    ⊎ (amount account.values lovelace < 4)))))
pull_from_account-branches_example =
    pull_from_account-branches scripts client puller_id account_id 4 bank bank bank bank bank
      testnet (open_at "pull", "pull", allowed) (open_at "account", "account", account) puller
      account_datum (pos 10000) on_testnet puller_located account_locked puller_typed account_typed
      timed twelve_ada-IsValid (omega arith)

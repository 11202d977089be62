-- ===== src/LiveClient/Finished.antt =====
-- How a builder is finished: its execution units, its signature, and what the live ledger is sent
-- (src/trireme_ledger_client/cml_client.rs).
use naumachia.Prelude.{◌≡◌, Option, none, some, List, String, ok, ok-inj, expect, sym, ap, ℕ}
use naumachia.Errors.{LedgerClientError, js_error}
use naumachia.Effects.{◌>>=◌, >>=-eq-ok, lift, return, raised, raised-of-ok, Run}
use naumachia.LiveClient.Cml.{ValueLib, CmlLib}
use naumachia.LiveClient.Helpers.{issued}
use naumachia.LiveClient.Utxo.{build_tx_for_signing, sign_tx}
use naumachia.LiveClient.Issue.{CmlLedgerClient, ExecutionCost, as_failed_to_issue_tx}
use naumachia.LiveClient.Submit.{finish, submit_tx, update_ex_units, set_costs}

issued-eq-ok : {X : Type 0} {o : Option X} {x : X} → issued o ≡ ok x → o ≡ some x
issued-eq-ok {o = none} h = cc
issued-eq-ok {o = some y} h = cc

module _ {V : ValueLib} {lib : CmlLib V} {A D R S : Type 0} (c : CmlLedgerClient lib A D R S) where
  -- A builder with the execution units that the ledger answered for its draft; the ledger went on from
  -- `s` to `u`.
  pub record IsCosted (address : lib.Addr) (builder : lib.Builder) (s : S)
      (with_units : lib.Builder) (u : S) : Type 0 where
    pub draft : lib.Tx
    pub costs : List (ℕ × ExecutionCost)
    pub drafted : lib.draft_tx builder address ≡ some draft
    pub answered : c.ledger.calculate_ex_units draft s ≡ (ok costs, u)
    pub set : with_units ≡ set_costs c costs builder

  -- What is done with a builder that has its execution units.
  abbrev pub signed_and_sent : lib.Addr → lib.Key → lib.Builder → Run S LedgerClientError String
  signed_and_sent address key with_units =
      lift (build_tx_for_signing lib address with_units) >>= λ signed.
      lift (sign_tx lib key signed) >>= submit_tx c

  -- What was signed and sent.
  pub record IsSent (address : lib.Addr) (key : lib.Key) (with_units : lib.Builder) (u : S)
      (id : String) (s' : S) : Type 0 where
    pub signed : lib.Signed
    pub final : lib.Tx
    pub built : lib.build with_units address ≡ some signed
    pub checked : lib.build_checked (lib.add_vkey key signed) ≡ some final
    pub sent : c.ledger.submit_transaction final u ≡ (ok id, s')

  pub signed_and_sent-IsSent :
      (address : lib.Addr) (key : lib.Key) (with_units : lib.Builder) (u s' : S) (id : String)
      → signed_and_sent address key with_units u ≡ (ok id, s')
      → IsSent address key with_units u id s'
  unfolding submit_tx sign_tx build_tx_for_signing
  signed_and_sent-IsSent address key with_units u s' id h =
      let (signed, built, h1) =
        >>=-eq-ok (lift (build_tx_for_signing lib address with_units))
          (λ signed. lift (sign_tx lib key signed) >>= submit_tx c) u h in
      let (final, checked, h2) = >>=-eq-ok (lift (sign_tx lib key signed)) (submit_tx c) u h1 in
      record {
        signed = signed;
        final = final;
        built = issued-eq-ok {o = lib.build with_units address} {x = signed} built;
        checked =
            issued-eq-ok {o = lib.build_checked (lib.add_vkey key signed)} {x = final} checked;
        sent = raised-of-ok as_failed_to_issue_tx (c.ledger.submit_transaction final) u h2;
      }

  -- The steps of `update_ex_units`.
  abbrev costs_of : lib.Tx → Run S LedgerClientError (List (ℕ × ExecutionCost))
  costs_of draft = raised (λ e. as_failed_to_issue_tx js_error) (c.ledger.calculate_ex_units draft)

  abbrev after_json : lib.Builder → lib.Tx → Run S LedgerClientError lib.Builder
  after_json builder draft = costs_of draft >>= λ costs. return (set_costs c costs builder)

  abbrev after_draft : lib.Builder → lib.Tx → Run S LedgerClientError lib.Builder
  after_draft builder draft = lift (expect (lib.tx_json draft)) >>= λ _. after_json builder draft

  update_ex_units-IsCosted :
      (address : lib.Addr) (builder with_units : lib.Builder) (s u : S)
      → update_ex_units c address builder s ≡ (ok with_units, u)
      → IsCosted address builder s with_units u
  unfolding update_ex_units
  update_ex_units-IsCosted address builder with_units s u h =
      let (draft, drafted, h1) =
        >>=-eq-ok (lift (issued (lib.draft_tx builder address))) (after_draft builder) s h in
      let (_, _, h2) =
        >>=-eq-ok (lift (expect (lib.tx_json draft))) (λ _. after_json builder draft) s h1 in
      let (costs, answered, h3) =
        >>=-eq-ok (costs_of draft) (λ costs. return (set_costs c costs builder)) s h2 in
      record {
        draft = draft;
        costs = costs;
        drafted = issued-eq-ok {o = lib.draft_tx builder address} {x = draft} drafted;
        answered =
            raised-of-ok (λ e. as_failed_to_issue_tx js_error) (c.ledger.calculate_ex_units draft) s
              (λ i. (answered i, (ap (λ x. x.1) h3) i));
        set = sym (ok-inj (ap (λ x. x.0) h3));
      }

  pub finish-parts :
      (address : lib.Addr) (key : lib.Key) (builder : lib.Builder) (s s' : S) (id : String)
      → finish c address key builder s ≡ (ok id, s')
      → (with_units : lib.Builder) × IsCosted address builder s with_units
          (update_ex_units c address builder s).1
        × (signed_and_sent address key with_units (update_ex_units c address builder s).1
            ≡ (ok id, s'))
  unfolding finish
  finish-parts address key builder s s' id h =
      let (with_units, costed, h1) =
        >>=-eq-ok (update_ex_units c address builder) (signed_and_sent address key) s h in
      let u : S = (update_ex_units c address builder s).1 in
      (with_units, update_ex_units-IsCosted address builder with_units s u (λ i. (costed i, u)), h1)

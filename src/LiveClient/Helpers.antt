-- ===== src/LiveClient/Helpers.antt =====
-- The numbers that transactions are built with
-- (src/trireme_ledger_client/cml_client/issuance_helpers.rs).
use naumachia.Prelude.{ℕ, List, [], ◌∷◌, Option, none, some, Outcome, ◌>>=◌, ok_or, map}
use naumachia.Errors.{LedgerClientError, failed_to_issue_tx, config_error, cml, js_error}
use naumachia.LiveClient.Cml.{ValueLib, CmlLib, BuilderConfig}

-- The map of `JsError` and `as_failed_to_issue_tx`.
abbrev pub issued : {A : Type 0} → Option A → Outcome LedgerClientError A
issued o = ok_or o (failed_to_issue_tx (cml js_error))

unfoldable pub vasil_v1_cost_models : List ℕ
vasil_v1_cost_models =
    205665 ∷ 812 ∷ 1 ∷ 1 ∷ 1000 ∷ 571 ∷ 0 ∷ 1 ∷ 1000 ∷ 24177 ∷ 4 ∷ 1 ∷ 1000 ∷ 32 ∷ 117366 ∷ 10475
    ∷ 4 ∷ 23000 ∷ 100 ∷ 23000 ∷ 100 ∷ 23000 ∷ 100 ∷ 23000 ∷ 100 ∷ 23000 ∷ 100 ∷ 23000 ∷ 100 ∷ 100
    ∷ 100 ∷ 23000 ∷ 100 ∷ 19537 ∷ 32 ∷ 175354 ∷ 32 ∷ 46417 ∷ 4 ∷ 221973 ∷ 511 ∷ 0 ∷ 1 ∷ 89141 ∷ 32
    ∷ 497525 ∷ 14068 ∷ 4 ∷ 2 ∷ 196500 ∷ 453240 ∷ 220 ∷ 0 ∷ 1 ∷ 1 ∷ 1000 ∷ 28662 ∷ 4 ∷ 2 ∷ 245000
    ∷ 216773 ∷ 62 ∷ 1 ∷ 1060367 ∷ 12586 ∷ 1 ∷ 208512 ∷ 421 ∷ 1 ∷ 187000 ∷ 1000 ∷ 52998 ∷ 1 ∷ 80436
    ∷ 32 ∷ 43249 ∷ 32 ∷ 1000 ∷ 32 ∷ 80556 ∷ 1 ∷ 57667 ∷ 4 ∷ 1000 ∷ 10 ∷ 197145 ∷ 156 ∷ 1 ∷ 197145
    ∷ 156 ∷ 1 ∷ 204924 ∷ 473 ∷ 1 ∷ 208896 ∷ 511 ∷ 1 ∷ 52467 ∷ 32 ∷ 64832 ∷ 32 ∷ 65493 ∷ 32 ∷ 22558
    ∷ 32 ∷ 16563 ∷ 32 ∷ 76511 ∷ 32 ∷ 196500 ∷ 453240 ∷ 220 ∷ 0 ∷ 1 ∷ 1 ∷ 69522 ∷ 11687 ∷ 0 ∷ 1
    ∷ 60091 ∷ 32 ∷ 196500 ∷ 453240 ∷ 220 ∷ 0 ∷ 1 ∷ 1 ∷ 196500 ∷ 453240 ∷ 220 ∷ 0 ∷ 1 ∷ 1 ∷ 806990
    ∷ 30482 ∷ 4 ∷ 1927926 ∷ 82523 ∷ 4 ∷ 265318 ∷ 0 ∷ 4 ∷ 0 ∷ 85931 ∷ 32 ∷ 205665 ∷ 812 ∷ 1 ∷ 1
    ∷ 41182 ∷ 32 ∷ 212342 ∷ 32 ∷ 31220 ∷ 32 ∷ 32696 ∷ 32 ∷ 43357 ∷ 32 ∷ 32247 ∷ 32 ∷ 38314 ∷ 32
    ∷ 9462713 ∷ 1021 ∷ 10 ∷ []

unfoldable pub vasil_v2_cost_models : List ℕ
vasil_v2_cost_models =
    205665 ∷ 812 ∷ 1 ∷ 1 ∷ 1000 ∷ 571 ∷ 0 ∷ 1 ∷ 1000 ∷ 24177 ∷ 4 ∷ 1 ∷ 1000 ∷ 32 ∷ 117366 ∷ 10475
    ∷ 4 ∷ 23000 ∷ 100 ∷ 23000 ∷ 100 ∷ 23000 ∷ 100 ∷ 23000 ∷ 100 ∷ 23000 ∷ 100 ∷ 23000 ∷ 100 ∷ 100
    ∷ 100 ∷ 23000 ∷ 100 ∷ 19537 ∷ 32 ∷ 175354 ∷ 32 ∷ 46417 ∷ 4 ∷ 221973 ∷ 511 ∷ 0 ∷ 1 ∷ 89141 ∷ 32
    ∷ 497525 ∷ 14068 ∷ 4 ∷ 2 ∷ 196500 ∷ 453240 ∷ 220 ∷ 0 ∷ 1 ∷ 1 ∷ 1000 ∷ 28662 ∷ 4 ∷ 2 ∷ 245000
    ∷ 216773 ∷ 62 ∷ 1 ∷ 1060367 ∷ 12586 ∷ 1 ∷ 208512 ∷ 421 ∷ 1 ∷ 187000 ∷ 1000 ∷ 52998 ∷ 1 ∷ 80436
    ∷ 32 ∷ 43249 ∷ 32 ∷ 1000 ∷ 32 ∷ 80556 ∷ 1 ∷ 57667 ∷ 4 ∷ 1000 ∷ 10 ∷ 197145 ∷ 156 ∷ 1 ∷ 197145
    ∷ 156 ∷ 1 ∷ 204924 ∷ 473 ∷ 1 ∷ 208896 ∷ 511 ∷ 1 ∷ 52467 ∷ 32 ∷ 64832 ∷ 32 ∷ 65493 ∷ 32 ∷ 22558
    ∷ 32 ∷ 16563 ∷ 32 ∷ 76511 ∷ 32 ∷ 196500 ∷ 453240 ∷ 220 ∷ 0 ∷ 1 ∷ 1 ∷ 69522 ∷ 11687 ∷ 0 ∷ 1
    ∷ 60091 ∷ 32 ∷ 196500 ∷ 453240 ∷ 220 ∷ 0 ∷ 1 ∷ 1 ∷ 196500 ∷ 453240 ∷ 220 ∷ 0 ∷ 1 ∷ 1 ∷ 1159724
    ∷ 392670 ∷ 0 ∷ 2 ∷ 806990 ∷ 30482 ∷ 4 ∷ 1927926 ∷ 82523 ∷ 4 ∷ 265318 ∷ 0 ∷ 4 ∷ 0 ∷ 85931 ∷ 32
    ∷ 205665 ∷ 812 ∷ 1 ∷ 1 ∷ 41182 ∷ 32 ∷ 212342 ∷ 32 ∷ 31220 ∷ 32 ∷ 32696 ∷ 32 ∷ 43357 ∷ 32 ∷ 32247
    ∷ 32 ∷ 38314 ∷ 32 ∷ 35892428 ∷ 10 ∷ 57996947 ∷ 18975 ∷ 10 ∷ 38887044 ∷ 32947 ∷ 10 ∷ []

unfoldable pub vasil_config : {I : Type 0} → List I → BuilderConfig I
vasil_config cost_model = record {
  coefficient = 44;
  constant = 155381;
  pool_deposit = 500000000;
  key_deposit = 2000000;
  max_value_size = 5000;
  max_tx_size = 16384;
  coins_per_utxo_byte = 4310;
  mem_price = (577, 10000);
  step_price = (721, 10000000);
  collateral_percentage = 150;
  max_collateral_inputs = 3;
  cost_model = cost_model;
}

module _ {V : ValueLib} (lib : CmlLib V) where
  unfoldable pub vasil_v1_tx_builder : Outcome LedgerClientError lib.Builder
  unfolding vasil_config vasil_v1_cost_models
  vasil_v1_tx_builder =
      issued (lib.builder_v1 (vasil_config (map lib.int_from vasil_v1_cost_models)))

  -- The numbers, each read from its digits.
  unfoldable pub read_all : List ℕ → Option (List lib.CmlInt)
  read_all [] = some []
  read_all (i ∷ is) = elim (lib.int_from_str i) [
    | none ↦ none
    | some n ↦ elim (read_all is) [ none ↦ none | some ns ↦ some (n ∷ ns) ]
  ]

  unfoldable pub vasil_v2_tx_builder : Outcome LedgerClientError lib.Builder
  unfolding vasil_config vasil_v2_cost_models read_all
  vasil_v2_tx_builder = ok_or (read_all vasil_v2_cost_models) config_error >>= λ ints.
      issued (lib.builder_v2 (vasil_config ints))

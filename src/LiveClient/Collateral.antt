-- ===== src/LiveClient/Collateral.antt =====
-- The collateral of a transaction (src/trireme_ledger_client/cml_client/issuance_helpers.rs).
use naumachia.Prelude.{
  ℕ, ◌-◌, ◌≤◌, ◌<◌, ◌≡◌, refl, ap, arith, true, false, ◌⊎◌, inl, inr, Bool-cases, Option, none,
  some, List, [], ◌∷◌, ◌++◌, All, err, ◌>>=◌, u64_mod,
}
use naumachia.Errors.{no_big_enough_collateral_utxo}
use naumachia.LiveClient.Cml.{ValueLib, CmlLib}
use naumachia.LiveClient.Helpers.{issued}
use naumachia.LiveClient.Utxo.{
  Utxo, has_no_tokens, is_better, smallest_above, collateral_input, select_collateral_utxo,
}

module _ {V : ValueLib} {lib : CmlLib V} where
  -- An output with lovelace alone, of more than the least amount (and less than the greatest u64).
  pub record Qualifies (min_amount : ℕ) (u : Utxo lib) : Type 0 where
    pub pure : has_no_tokens lib u ≡ true
    pub enough : min_amount < V.coin u.amount
    pub finite : V.coin u.amount < u64_mod - 1

  -- The output of a list that qualifies with the least amount.
  pub record IsSmallest (min_amount : ℕ) (utxos : List (Utxo lib)) (u : Utxo lib) : Type 0 where
    pub before : List (Utxo lib)
    pub after : List (Utxo lib)
    pub parted : utxos ≡ before ++ u ∷ after
    pub qualifies : Qualifies min_amount u
    pub least : All (λ v. Qualifies min_amount v → V.coin u.amount ≤ V.coin v.amount) utxos

  -- A better output than any so far, and than the others of the list.
  record IsImprovement (min_amount amount : ℕ) (utxos : List (Utxo lib)) (u : Utxo lib)
      : Type 0 where
    before : List (Utxo lib)
    after : List (Utxo lib)
    parted : utxos ≡ before ++ u ∷ after
    pure : has_no_tokens lib u ≡ true
    enough : min_amount < V.coin u.amount
    below : V.coin u.amount < amount
    least : All (λ v. Qualifies min_amount v → V.coin u.amount ≤ V.coin v.amount) utxos

  better-true :
      (min_amount amount : ℕ) (v : Utxo lib)
      → is_better lib min_amount amount v ≡ true
      → (has_no_tokens lib v ≡ true) × (V.coin v.amount < amount) × (min_amount < V.coin v.amount)
  unfolding is_better
  better-true min_amount amount v h = ground arith

  better-false :
      (min_amount amount : ℕ) (v : Utxo lib)
      → is_better lib min_amount amount v ≡ false
      → Qualifies min_amount v
      → amount ≤ V.coin v.amount
  unfolding is_better
  better-false min_amount amount v h q = ground (arith, q.pure, q.enough)

  -- Either no output is better than the amount so far, or the best of them is chosen.
  smallest_above-cases :
      (min_amount : ℕ) (utxos : List (Utxo lib)) (best : Option (Utxo lib)) (amount : ℕ)
      → ((smallest_above lib min_amount utxos best amount ≡ (best, amount))
          × All (λ v. Qualifies min_amount v → amount ≤ V.coin v.amount) utxos)
        ⊎ ((u : Utxo lib) × (smallest_above lib min_amount utxos best amount
              ≡ (some u, V.coin u.amount))
            × IsImprovement min_amount amount utxos u)
  unfolding smallest_above
  smallest_above-cases min_amount [] best amount = inl (refl, tt)
  smallest_above-cases min_amount (v ∷ utxos) best amount =
      elim (Bool-cases (is_better lib min_amount amount v)) [
        | inl better ↦
            let (pure, below, enough) = better-true min_amount amount v better in
            elim (smallest_above-cases min_amount utxos (some v) (V.coin v.amount)) [
              | inl (e, rest) ↦ inr (
                v,
                rw (smallest_above, better) e,
                record {
                  before = [];
                  after = utxos;
                  parted = refl;
                  pure = pure;
                  enough = enough;
                  below = below;
                  least = ((λ _. omega arith), rest);
                },
              )
              | inr (u, e, h) ↦ inr (
                u,
                rw (smallest_above, better) e,
                record {
                  before = v ∷ h.before;
                  after = h.after;
                  parted = ap (λ l. v ∷ l) h.parted;
                  pure = h.pure;
                  enough = h.enough;
                  below = omega (arith, below, h.below);
                  least = ((λ _. omega (arith, h.below)), h.least);
                },
              )
            ]
        | inr worse ↦
            let skipped = better-false min_amount amount v worse in
            elim (smallest_above-cases min_amount utxos best amount) [
              | inl (e, rest) ↦ inl (rw (smallest_above, worse) e, (skipped, rest))
              | inr (u, e, h) ↦ inr (
                u,
                rw (smallest_above, worse) e,
                record {
                  before = v ∷ h.before;
                  after = h.after;
                  parted = ap (λ l. v ∷ l) h.parted;
                  pure = h.pure;
                  enough = h.enough;
                  below = h.below;
                  least = ((λ q. omega (arith, h.below, skipped q)), h.least);
                },
              )
            ]
      ]

  -- What every output of the list is like, where none is smaller than the greatest u64.
  none-Qualifies :
      (min_amount : ℕ) (utxos : List (Utxo lib))
      → All (λ v. Qualifies min_amount v → u64_mod - 1 ≤ V.coin v.amount) utxos
      → All (λ v. ¬ Qualifies min_amount v) utxos
  none-Qualifies min_amount [] h = tt
  none-Qualifies min_amount (v ∷ utxos) (h, hs) =
      ((λ q. absurd (omega (arith, h q, q.finite))), none-Qualifies min_amount utxos hs)

  -- The collateral is the output that qualifies with the least amount of lovelace, and the input
  -- is made of its id and that amount; where no output qualifies, `NoBigEnoughCollateralUTxO`.
  pub select_collateral_utxo-IsSmallest :
      (my_address : lib.Addr) (utxos : List (Utxo lib)) (min_amount : ℕ)
      → ((u : Utxo lib) × IsSmallest min_amount utxos u
          × (select_collateral_utxo lib my_address utxos min_amount ≡ (
              issued (lib.output_with_coin my_address (V.coin u.amount)) >>= λ output.
              issued (lib.payment_key u.tx_hash u.output_index output))))
        ⊎ (All (λ v. ¬ Qualifies min_amount v) utxos
            × (select_collateral_utxo lib my_address utxos min_amount
                ≡ err no_big_enough_collateral_utxo))
  unfolding select_collateral_utxo collateral_input
  select_collateral_utxo-IsSmallest my_address utxos min_amount =
      elim (smallest_above-cases min_amount utxos none (u64_mod - 1)) [
        | inl (e, rest) ↦
            inr (none-Qualifies min_amount utxos rest, ap (collateral_input lib my_address) e)
        | inr (u, e, h) ↦ inl (
          u,
          record {
            before = h.before;
            after = h.after;
            parted = h.parted;
            qualifies = record { pure = h.pure; enough = h.enough; finite = h.below };
            least = h.least;
          },
          ap (collateral_input lib my_address) e,
        )
      ]

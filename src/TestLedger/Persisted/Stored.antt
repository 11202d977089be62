-- ===== src/TestLedger/Persisted/Stored.antt =====
-- Outputs as they are kept in the file
-- (src/ledger_client/test_ledger_client/local_persisted_storage.rs).
use naumachia.Prelude.{
  ℕ, zero, suc, ◌≡◌, refl, sym, ap, ◌∙◌, ◌&&◌, Bool-cases, Option-cases, some-inj, inl, inr, Option,
  some, List, [], ◌∷◌, map, take, All, ok, Eq, ◌==◌, string_eq, option_eq,
}
use mathlib.Core.Option
use naumachia.Address.{AddressLib}
use naumachia.Scripts.PlutusData.{PlutusData, plutus_data_eq}
use naumachia.Output.{
  Output, DatumKind, typed, untyped, no_datum, output_owner, datum_plutus_data, with_untyped_datum,
  with_typed_datum_if_possible, new_wallet, new_untyped_validator,
}
use naumachia.Output.Equality.{id_beq, values_beq, output_beq}
use naumachia.TestLedger.InMemory.{at_address, take_out}
use naumachia.TestLedger.Persisted.{
  LdOutput, ld_output, output_of, outputs_at, first_outputs_at, ld_output_beq, take_ld,
}

-- The datum is not an untyped one.
unfoldable pub IsTyped : {D : Type 0} → DatumKind D → Type 0
IsTyped (untyped _) = ⊥
IsTyped _ = Unit {0}

module _ {A D : Type 0} (lib : AddressLib A) ⦃d : Eq D⦄ (into : D → PlutusData)
    (try_from : PlutusData → Option D) where
  abbrev pub stored : Output D → LdOutput
  unfolding datum_plutus_data
  stored o = record {
    id = o.id;
    owner = o.owner;
    values = o.values;
    datum = datum_plutus_data into o;
  }

  -- The output stands under its owner's address, in that address's own text, and its datum, if
  -- there is one, is typed.
  unfoldable pub Filed : A × Output D → Type 0
  unfolding IsTyped
  Filed (a, o) = (lib.to_bech32 a ≡ some o.owner) × IsTyped o.datum

  module _ (reads : (d : D) → try_from (into d) ≡ some d) where
    pub output_owner-Filed :
        (E : Type 0) (a : A) (o : Output D)
        → Filed (a, o)
        → output_owner {E = E} ⦃lib = lib⦄ o ≡ ok a
    unfolding output_owner Filed
    output_owner-Filed E a o (filed, _) = rw (lib.decode-encode a o.owner filed) refl

    -- What is kept for an output with an address is what `LDOutput::from` makes.
    pub ld_output-stored :
        (E : Type 0) (a : A) (o : Output D)
        → Filed (a, o)
        → ld_output lib {E = E} into o ≡ ok (stored o)
    unfolding ld_output Filed datum_plutus_data
    ld_output-stored E a o filed = rw (output_owner-Filed E a o filed, filed.0) refl

    output_of-kind :
        (E : Type 0) (a : A) (o : Output D) (k : DatumKind D)
        → lib.to_bech32 a ≡ some o.owner
        → IsTyped k
        → output_of lib {E = E} (stored (record o { datum = k }))
          ≡ ok (with_untyped_datum into (record o { datum = k }))
    unfolding output_of with_untyped_datum IsTyped datum_plutus_data new_wallet
        new_untyped_validator
    output_of-kind E a o (typed d) filed _ = rw (lib.decode-encode a o.owner filed, filed) refl
    output_of-kind E a o (untyped d) filed bad = absurd bad
    output_of-kind E a o no_datum filed _ = rw (lib.decode-encode a o.owner filed, filed) refl

    -- Reading what is kept gives the output without its type.
    output_of-stored :
        (E : Type 0) (a : A) (o : Output D)
        → Filed (a, o)
        → output_of lib {E = E} (stored o) ≡ ok (with_untyped_datum into o)
    unfolding Filed
    output_of-stored E a o (filed, kind) = output_of-kind E a o o.datum filed kind

    retyped-kind :
        (o : Output D) (k : DatumKind D)
        → IsTyped k
        → with_typed_datum_if_possible try_from (with_untyped_datum into (record o { datum = k }))
          ≡ record o { datum = k }
    unfolding with_typed_datum_if_possible with_untyped_datum IsTyped
    retyped-kind o (typed d) _ = rw (reads d) refl
    retyped-kind o (untyped d) bad = absurd bad
    retyped-kind o no_datum _ = refl

    retyped :
        (o : Output D)
        → IsTyped o.datum
        → with_typed_datum_if_possible try_from (with_untyped_datum into o) ≡ o
    retyped o kind = retyped-kind o o.datum kind

    owner-untyped :
        (E : Type 0) (a : A) (o : Output D)
        → Filed (a, o)
        → output_owner {E = E} ⦃lib = lib⦄ (with_untyped_datum into o) ≡ ok a
    unfolding output_owner with_untyped_datum Filed
    owner-untyped E a o (filed, _) = rw (lib.decode-encode a o.owner filed) refl

    -- What is kept at an address is what is filed there.
    pub outputs_at-stored :
        (E : Type 0) (a : A) (outputs : List (A × Output D))
        → All Filed outputs
        → outputs_at lib {E = E} try_from a (map (λ x. stored x.1) outputs)
          ≡ ok (at_address ⦃lib = lib⦄ a outputs)
    unfolding outputs_at at_address Filed
    outputs_at-stored E a [] _ = refl
    outputs_at-stored E a ((b, o) ∷ outputs) (filed, more) =
        elim (Bool-cases (lib.address_eq.beq b a)) [
          | inl here ↦
              rw
                (
                  output_of-stored E b o filed,
                  owner-untyped E b o filed,
                  outputs_at-stored E a outputs more,
                  retyped o filed.1,
                  here,
                )
                refl
          | inr there ↦
              rw
                (
                  output_of-stored E b o filed,
                  owner-untyped E b o filed,
                  outputs_at-stored E a outputs more,
                  there,
                )
                refl
        ]

    pub first_outputs_at-stored :
        (E : Type 0) (a : A) (count : ℕ) (outputs : List (A × Output D))
        → All Filed outputs
        → first_outputs_at lib {E = E} try_from a count (map (λ x. stored x.1) outputs)
          ≡ ok (take count (at_address ⦃lib = lib⦄ a outputs))
    unfolding first_outputs_at at_address Filed
    first_outputs_at-stored E a zero [] _ = refl
    first_outputs_at-stored E a (suc n) [] _ = refl
    first_outputs_at-stored E a zero ((b, o) ∷ outputs) _ = refl
    first_outputs_at-stored E a (suc n) ((b, o) ∷ outputs) (filed, more) =
        elim (Bool-cases (lib.address_eq.beq b a)) [
          | inl here ↦
              rw
                (
                  output_of-stored E b o filed,
                  owner-untyped E b o filed,
                  here,
                  first_outputs_at-stored E a n outputs more,
                  retyped o filed.1,
                )
                refl
          | inr there ↦
              rw
                (
                  output_of-stored E b o filed,
                  owner-untyped E b o filed,
                  there,
                  first_outputs_at-stored E a (suc n) outputs more,
                )
                refl
        ]

    into-inj : (a b : D) → into a ≡ into b → a ≡ b
    into-inj a b h = some-inj (sym (reads a) ∙ ap try_from h ∙ reads b)

    into-beq : (a b : D) → plutus_data_eq.beq (into a) (into b) ≡ d.beq a b
    into-beq a b = elim (Bool-cases (d.beq a b)) [
      | inl same ↦
          (plutus_data_eq.beq_iff (into a) (into b)).1 (ap into ((d.beq_iff a b).0 same)) ∙ sym same
      | inr differ ↦ elim (Bool-cases (plutus_data_eq.beq (into a) (into b))) [
        | inl clash ↦ absurd (
            cc (
              sym differ
              ∙ (d.beq_iff a b).1
                  (into-inj a b ((plutus_data_eq.beq_iff (into a) (into b)).0 clash))))
        | inr apart ↦ apart ∙ sym differ
      ]
    ]

    -- Equality of what is kept is equality of the outputs.
    ld_output_beq-kinds :
        (o p : Output D) (k l : DatumKind D)
        → IsTyped k
        → IsTyped l
        → ld_output_beq (stored (record o { datum = k })) (stored (record p { datum = l }))
          ≡ output_beq (record o { datum = k }) (record p { datum = l })
    unfolding ld_output_beq output_beq IsTyped datum_plutus_data
    ld_output_beq-kinds o p (typed a) (typed b) _ _ =
        ap (λ t. id_beq o.id p.id && (o.owner == p.owner) && values_beq o.values p.values && t)
          (into-beq a b)
    ld_output_beq-kinds o p (typed a) no_datum _ _ = refl
    ld_output_beq-kinds o p no_datum (typed b) _ _ = refl
    ld_output_beq-kinds o p no_datum no_datum _ _ = refl
    ld_output_beq-kinds o p (untyped a) _ bad _ = absurd bad
    ld_output_beq-kinds o p (typed a) (untyped b) _ bad = absurd bad
    ld_output_beq-kinds o p no_datum (untyped b) _ bad = absurd bad

    -- The output that is taken is the same one.
    pub take_ld-stored :
        (o : Output D) (outputs : List (A × Output D))
        → IsTyped o.datum
        → All Filed outputs
        → take_ld (stored o) (map (λ x. stored x.1) outputs)
          ≡ Option.map (λ left. map (λ x. stored x.1) left) (take_out ⦃lib = lib⦄ o outputs)
    unfolding take_ld take_out Filed
    take_ld-stored o [] kind _ = refl
    take_ld-stored o ((a, x) ∷ outputs) kind (filed, more) =
        let same = ld_output_beq-kinds x o x.datum o.datum filed.1 kind in
        elim (Bool-cases (output_beq x o)) [
          | inl here ↦ rw (take_ld, same, here) refl
          | inr there ↦ elim (Option-cases (take_out ⦃lib = lib⦄ o outputs)) [
            | inl missing ↦
                rw (take_ld, same, there, take_ld-stored o outputs kind more, missing) refl
            | inr (left, found) ↦
                rw (take_ld, same, there, take_ld-stored o outputs kind more, found) refl
          ]
        ]

-- ===== src/Output/Equality.antt =====
-- The derived equality of outputs (src/output.rs): values are compared as maps.
use naumachia.Prelude.{
  ℕ, ◌≡◌, ap, Bool, true, false, ◌&&◌, Option, none, some, arith, Eq, ◌==◌, nat_eq, string_eq,
  list_eq, list_beq_iff,
}
use naumachia.HashMap.{map_beq}
use naumachia.HashMap.Equality.{get-of-map_beq}
use naumachia.Errors.{OutputId}
use naumachia.PolicyId.{PolicyId, policy_eq}
use naumachia.Scripts.PlutusData.{plutus_data_eq}
use naumachia.Values.{Values, IsValid, amount}
use naumachia.Output.{Output, DatumKind, typed, untyped, no_datum}

abbrev pub id_beq : OutputId → OutputId → Bool
id_beq a b = (a.tx_hash == b.tx_hash) && (a.index == b.index)

unfoldable pub values_beq : Values → Values → Bool
values_beq v w = map_beq v.values w.values

module _ {D : Type 0} ⦃d : Eq D⦄ where
  abbrev pub datum_beq : DatumKind D → DatumKind D → Bool
  datum_beq (typed a) (typed b) = a == b
  datum_beq (untyped a) (untyped b) = a == b
  datum_beq no_datum no_datum = true
  datum_beq _ _ = false

  unfoldable pub output_beq : Output D → Output D → Bool
  unfolding values_beq
  output_beq a b =
      id_beq a.id b.id
      && (a.owner == b.owner)
      && values_beq a.values b.values
      && datum_beq a.datum b.datum

  -- Two outputs that are found equal, the first with a valid bag, have the same id and owner and hold
  -- the same amount of every policy.
  pub output_beq_sound :
      (a b : Output D)
      → IsValid a.values
      → output_beq a b ≡ true
      → (a.id ≡ b.id)
        × (a.owner ≡ b.owner)
        × ((q : PolicyId) → amount a.values q ≡ amount b.values q)
  unfolding output_beq
  output_beq_sound a b h e = (
    ground (arith, list_beq_iff a.id.tx_hash b.id.tx_hash),
    ground (arith, string_eq.beq_iff a.owner b.owner),
    λ q.
        ap (λ (o : Option ℕ). elim o [ none ↦ 0 | some x ↦ x ])
          (get-of-map_beq a.values.values b.values.values h.distinct (ground arith) q),
  )

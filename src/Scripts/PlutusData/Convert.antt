-- ===== src/Scripts/PlutusData/Convert.antt =====
-- Contexts as Plutus data (src/scripts/plutus_validator/plutus_data.rs). `parts` is the Shelley
-- address that the crate `pallas_addresses` finds, and `decode` the crate `hex`'s; `todo!` and
-- `unwrap` panic.
use naumachia.Prelude.{
  ℕ, ◌+◌, ◌/◌, ◌%◌, ltb, Bool, if◌then◌else◌, Option, none, some, List, [], ◌∷◌, ◌++◌, String,
  Outcome, ok, panic, ◌>>=◌, expect, traverse, map as map_list,
}
use naumachia.Prelude.Int.{ℤ, pos}
use Prim.Native.Char.{code}
use Prim.Native.String.{[] as empty_text, ◌∷◌ as char_cons}
use naumachia.HashMap.{HashMap}
use naumachia.Address.{PaymentPart, DelegationPart}
use naumachia.Scripts.Context.{
  CtxOutputReference, CtxScriptPurpose, PubKeyHash, ValidRange, CtxValue, CtxDatum, Input,
  CtxOutput, TxContext,
}
use naumachia.Scripts.PlutusData.{
  PlutusData, constr, map, big_int, bounded_bytes, array, Items, nil, cons, end, entry,
}
use naumachia.Scripts.PlutusData.Numbers.{big_int_of, as_i64, data_of_u64}
use naumachia.Scripts.PlutusData.Maps.{collect_sorted}

-- A vector of data.
abbrev pub items : List PlutusData → Items
items [] = nil
items (x ∷ xs) = cons x (items xs)

unfoldable pub wrap_with_constr : ℕ → PlutusData → PlutusData
wrap_with_constr index inner = constr index (items (inner ∷ []))

unfoldable pub wrap_multiple_with_constr : ℕ → List PlutusData → PlutusData
wrap_multiple_with_constr index inner = constr index (items inner)

unfoldable pub empty_constr : ℕ → PlutusData
empty_constr index = constr index nil

unfoldable pub payment_data : PaymentPart → PlutusData
payment_data (PaymentPart.key hash) = constr 0 (items (bounded_bytes hash ∷ []))
payment_data (PaymentPart.script hash) = constr 1 (items (bounded_bytes hash ∷ []))

-- A stake part is `Some` of an inline one or a pointer, or `None`.
unfoldable pub delegation_data : DelegationPart → PlutusData
unfolding wrap_with_constr wrap_multiple_with_constr empty_constr data_of_u64
delegation_data (DelegationPart.key hash) =
    wrap_with_constr 0 (wrap_with_constr 0 (bounded_bytes hash))
delegation_data (DelegationPart.script hash) =
    wrap_with_constr 0 (wrap_with_constr 1 (bounded_bytes hash))
delegation_data (DelegationPart.pointer slot tx_idx cert_idx) = wrap_with_constr 0 (
    wrap_multiple_with_constr 1 (data_of_u64 slot ∷ data_of_u64 tx_idx ∷ data_of_u64 cert_idx ∷ []))
delegation_data DelegationPart.null = empty_constr 1

-- Only a Shelley address has the two parts.
unfoldable pub address_data :
    {E A : Type 0} → (A → Option (PaymentPart × DelegationPart)) → A → Outcome E PlutusData
unfolding wrap_multiple_with_constr payment_data delegation_data
address_data parts value = elim (parts value) [
  | none ↦ panic
  | some (payment, stake) ↦
      ok (wrap_multiple_with_constr 0 (payment_data payment ∷ delegation_data stake ∷ []))
]

-- The upper end of a range that has none: `PosInf` and its closure.
abbrev pub no_upper : PlutusData
no_upper = constr 0 (items (constr 2 nil ∷ constr 1 nil ∷ []))

unfoldable pub no_time_bound : PlutusData
no_time_bound =
    constr 0 (items (constr 0 (items (constr 0 nil ∷ constr 1 nil ∷ [])) ∷ no_upper ∷ []))

unfoldable pub lower_bound : ℤ → Bool → PlutusData
unfolding big_int_of
lower_bound bound is_inclusive =
    let closure = if is_inclusive then constr 1 nil else constr 0 nil in
    constr 0 (
      items (
        constr 0 (items (constr 1 (items (big_int (big_int_of bound) ∷ [])) ∷ closure ∷ []))
        ∷ no_upper
        ∷ []))

-- A range with an upper bound panics.
bounds_data : {E : Type 0} → Option (ℤ × Bool) → Option (ℤ × Bool) → Outcome E PlutusData
unfolding no_time_bound lower_bound
bounds_data none none = ok no_time_bound
bounds_data (some (bound, is_inclusive)) none = ok (lower_bound bound is_inclusive)
bounds_data none (some _) = panic
bounds_data (some _) (some _) = panic

unfoldable pub range_data : {E : Type 0} → ValidRange → Outcome E PlutusData
unfolding bounds_data
range_data value = bounds_data value.lower value.upper

unfoldable pub out_ref_data : CtxOutputReference → PlutusData
unfolding wrap_with_constr big_int_of as_i64
out_ref_data out_ref = constr 0 (
    items (
      wrap_with_constr 0 (bounded_bytes out_ref.transaction_id)
      ∷ big_int (big_int_of (as_i64 out_ref.output_index))
      ∷ []))

-- `String::as_bytes`: UTF-8.
unfoldable pub utf8 : ℕ → List ℕ
utf8 c =
    if ltb c 0x80
    then c ∷ []
    else if ltb c 0x800
    then (0xC0 + c / 64) ∷ (0x80 + c % 64) ∷ []
    else if ltb c 0x10000
    then (0xE0 + c / 4096) ∷ (0x80 + c / 64 % 64) ∷ (0x80 + c % 64) ∷ []
    else (0xF0 + c / 262144) ∷ (0x80 + c / 4096 % 64) ∷ (0x80 + c / 64 % 64) ∷ (0x80 + c % 64) ∷ []

unfoldable pub as_bytes : String → List ℕ
unfolding utf8
as_bytes empty_text = []
as_bytes (char_cons c s) = utf8 (code c) ++ as_bytes s

unfoldable pub asset_data : String × ℕ → PlutusData × PlutusData
unfolding as_bytes big_int_of as_i64
asset_data (an, amt) = (bounded_bytes (as_bytes an), big_int (big_int_of (as_i64 amt)))

unfoldable pub policy_data :
    {E : Type 0}
    → (String → Option (List ℕ))
    → String × HashMap String ℕ
    → Outcome E (PlutusData × PlutusData)
unfolding collect_sorted asset_data
policy_data decode (p, a) = expect (decode p) >>= λ policy_id.
    ok (bounded_bytes policy_id, map (collect_sorted end (map_list asset_data a)))

unfoldable pub ctx_value_data :
    {E : Type 0} → (String → Option (List ℕ)) → CtxValue → Outcome E PlutusData
unfolding collect_sorted policy_data
ctx_value_data decode value = traverse (policy_data decode) value.inner >>= λ converted_inner.
    ok (map (collect_sorted end converted_inner))

unfoldable pub ctx_datum_data : CtxDatum → PlutusData
ctx_datum_data CtxDatum.no_datum = constr 0 nil
ctx_datum_data (CtxDatum.datum_hash hash) = constr 1 (items (bounded_bytes hash ∷ []))
ctx_datum_data (CtxDatum.inline_datum inner) = constr 2 (items (inner ∷ []))

unfoldable pub option_data : {T : Type 0} → (T → PlutusData) → Option T → PlutusData
option_data into none = constr 1 nil
option_data into (some inner) = constr 0 (items (into inner ∷ []))

unfoldable pub unit_data : PlutusData
unit_data = constr 0 nil

unfoldable pub pub_key_hash_data : PubKeyHash → PlutusData
pub_key_hash_data value = bounded_bytes value.bytes

unfoldable pub ctx_output_data :
    {E A : Type 0}
    → (A → Option (PaymentPart × DelegationPart))
    → (String → Option (List ℕ))
    → CtxOutput A
    → Outcome E PlutusData
unfolding address_data ctx_value_data ctx_datum_data option_data
ctx_output_data parts decode output = address_data parts output.address >>= λ address.
    ctx_value_data decode output.value >>= λ value. ok (
      constr 0 (
        items (
          address
          ∷ value
          ∷ ctx_datum_data output.datum
          ∷ option_data bounded_bytes output.reference_script
          ∷ [])))

unfoldable pub input_data :
    {E A : Type 0}
    → (A → Option (PaymentPart × DelegationPart))
    → (String → Option (List ℕ))
    → Input A
    → Outcome E PlutusData
unfolding out_ref_data ctx_output_data
input_data parts decode input =
    let output_reference =
      out_ref_data
        (record { transaction_id = input.transaction_id; output_index = input.output_index }) in
    ctx_output_data parts decode (record {
      address = input.address;
      value = input.value;
      datum = input.datum;
      reference_script = input.reference_script;
    })
    >>= λ output. ok (constr 0 (items (output_reference ∷ output ∷ [])))

-- The one amount of no policy and no asset.
abbrev pub single_amount : ℤ → PlutusData
unfolding big_int_of
single_amount n =
    map (entry (bounded_bytes []) (map (entry (bounded_bytes []) (big_int (big_int_of n)) end)) end)

unfoldable pub purpose_data : {E : Type 0} → CtxScriptPurpose → Outcome E PlutusData
unfolding wrap_with_constr out_ref_data
purpose_data (CtxScriptPurpose.mint policy_id) = ok (wrap_with_constr 0 (bounded_bytes policy_id))
purpose_data (CtxScriptPurpose.spend out_ref) = ok (wrap_with_constr 1 (out_ref_data out_ref))
purpose_data _ = panic

unfoldable pub tx_context_data :
    {E A : Type 0}
    → (A → Option (PaymentPart × DelegationPart))
    → (String → Option (List ℕ))
    → TxContext A
    → Outcome E PlutusData
unfolding input_data ctx_output_data range_data pub_key_hash_data collect_sorted wrap_with_constr
    purpose_data
tx_context_data parts decode ctx = traverse (input_data parts decode) ctx.inputs >>= λ inputs.
    traverse (ctx_output_data parts decode) ctx.outputs >>= λ outputs.
    range_data ctx.range >>= λ valid_range.
    let signers =
      map_list pub_key_hash_data ctx.extra_signatories ++ pub_key_hash_data ctx.signer ∷ [] in
    let datums = map_list (λ entry_. (bounded_bytes (entry_.0), entry_.1)) ctx.datums in
    let tx_info = constr 0 (
      items (
        array (items inputs)
        ∷ array nil
        ∷ array (items outputs)
        ∷ single_amount (pos 999)
        ∷ single_amount (pos 0)
        ∷ array nil
        ∷ map end
        ∷ valid_range
        ∷ array (items signers)
        ∷ map end
        ∷ map (collect_sorted end datums)
        ∷ wrap_with_constr 0 (bounded_bytes [])
        ∷ [])) in
    purpose_data ctx.purpose >>= λ purpose. ok (constr 0 (items (tx_info ∷ purpose ∷ [])))

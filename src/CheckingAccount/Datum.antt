-- ===== src/CheckingAccount/Datum.antt =====
-- The datums of the checking account (sample-dApps/checking_account/src/datum.rs).
use naumachia.Prelude.{
  ℕ, ◌<◌, ◌≡◌, refl, ap, ◌∙◌, List, [], ◌∷◌, Outcome, ok, err, ◌>>=◌, Eq, eq_of_discrete, u64_mod,
}
use native.Mathlib.Decide.{ℕ_discrete}
use naumachia.Prelude.Int.{ℤ, IsI64}
use naumachia.Scripts.Context.{PubKeyHash}
use naumachia.Scripts.PlutusData.{PlutusData, constr, big_int, bounded_bytes, Items, nil, cons}
use naumachia.Scripts.PlutusData.Numbers.{
  big_int_of, i64_of, as_i64, as_u64, as_u64-as_i64, as_i64-IsI64, i64_of-big_int_of,
}
use naumachia.Scripts.PlutusData.Convert.{items, pub_key_hash_data}

pub record CheckingAccount : Type 0 where
  pub owner : PubKeyHash
  pub spend_token_policy : List ℕ

pub record AllowedPuller : Type 0 where
  pub owner : PubKeyHash
  pub puller : PubKeyHash
  pub amount_lovelace : ℕ
  pub next_pull : ℤ
  pub period : ℤ
  pub spending_token : List ℕ
  pub checking_account_nft : List ℕ

pub data CheckingAccountDatums : Type 0 where
  checking_account : CheckingAccount → CheckingAccountDatums
  allowed_puller : AllowedPuller → CheckingAccountDatums

-- `PlutusData::from`
unfoldable pub datum_data : CheckingAccountDatums → PlutusData
unfolding pub_key_hash_data big_int_of as_i64
datum_data (checking_account d) =
    constr 0 (items (pub_key_hash_data d.owner ∷ bounded_bytes d.spend_token_policy ∷ []))
datum_data (allowed_puller d) = constr 0 (
    items (
      pub_key_hash_data d.owner
      ∷ pub_key_hash_data d.puller
      ∷ big_int (big_int_of (as_i64 d.amount_lovelace))
      ∷ big_int (big_int_of d.next_pull)
      ∷ big_int (big_int_of d.period)
      ∷ bounded_bytes d.spending_token
      ∷ bounded_bytes d.checking_account_nft
      ∷ []))

abbrev pub bytes_field : PlutusData → Outcome (Unit {0}) (List ℕ)
bytes_field (bounded_bytes bytes) = ok bytes
bytes_field _ = err tt

abbrev pub int_field : PlutusData → Outcome (Unit {0}) ℤ
unfolding i64_of
int_field (big_int n) = i64_of n
int_field _ = err tt

unfoldable pub checking_account_datum :
    PlutusData → PlutusData → Outcome (Unit {0}) CheckingAccountDatums
checking_account_datum f0 f1 = bytes_field f0 >>= λ owner_bytes. bytes_field f1 >>= λ policy_bytes.
    ok (
      checking_account
        (record { owner = record { bytes = owner_bytes }; spend_token_policy = policy_bytes }))

unfoldable pub allowed_puller_datum :
    PlutusData
    → PlutusData
    → PlutusData
    → PlutusData
    → PlutusData
    → PlutusData
    → PlutusData
    → Outcome (Unit {0}) CheckingAccountDatums
unfolding as_u64
allowed_puller_datum f0 f1 f2 f3 f4 f5 f6 = bytes_field f0 >>= λ owner_bytes.
    bytes_field f1 >>= λ puller_bytes. int_field f2 >>= λ amount_lovelace.
    int_field f3 >>= λ next_pull. int_field f4 >>= λ period. bytes_field f5 >>= λ spending_token.
    bytes_field f6 >>= λ checking_account_nft. ok (
      allowed_puller (record {
        owner = record { bytes = owner_bytes };
        puller = record { bytes = puller_bytes };
        amount_lovelace = as_u64 amount_lovelace;
        next_pull = next_pull;
        period = period;
        spending_token = spending_token;
        checking_account_nft = checking_account_nft;
      }))

datum_of_fields : Items → Outcome (Unit {0}) CheckingAccountDatums
unfolding checking_account_datum allowed_puller_datum
datum_of_fields (cons f0 (cons f1 nil)) = checking_account_datum f0 f1
datum_of_fields (cons f0 (cons f1 (cons f2 (cons f3 (cons f4 (cons f5 (cons f6 nil))))))) =
    allowed_puller_datum f0 f1 f2 f3 f4 f5 f6
datum_of_fields _ = err tt

-- `CheckingAccountDatums::try_from`: by the number of the fields, whatever the constructor's index.
unfoldable pub datum_of_data : PlutusData → Outcome (Unit {0}) CheckingAccountDatums
unfolding datum_of_fields
datum_of_data (constr _ fields) = datum_of_fields fields
datum_of_data _ = err tt

-- The numbers of a datum are in the ranges of their types.
unfoldable pub IsInRange : CheckingAccountDatums → Type 0
IsInRange (checking_account d) = Unit {0}
IsInRange (allowed_puller d) = (d.amount_lovelace < u64_mod) × IsI64 d.next_pull × IsI64 d.period

pub CheckingAccountDatums-discrete : Discrete CheckingAccountDatums
CheckingAccountDatums-discrete = hlevel ℕ_discrete

instance abbrev pub datums_eq : Eq CheckingAccountDatums
datums_eq = eq_of_discrete CheckingAccountDatums-discrete

allowed_puller_datum-ints :
    (f2 f3 f4 : PlutusData) {a b c : ℤ} (owner puller token nft : List ℕ)
    → int_field f2 ≡ ok a
    → int_field f3 ≡ ok b
    → int_field f4 ≡ ok c
    → allowed_puller_datum
        (bounded_bytes owner)
        (bounded_bytes puller)
        f2
        f3
        f4
        (bounded_bytes token)
        (bounded_bytes nft)
      ≡ ok (
          allowed_puller (record {
            owner = record { bytes = owner };
            puller = record { bytes = puller };
            amount_lovelace = as_u64 a;
            next_pull = b;
            period = c;
            spending_token = token;
            checking_account_nft = nft;
          }))
unfolding allowed_puller_datum
allowed_puller_datum-ints f2 f3 f4 owner puller token nft e2 e3 e4 = rw (e2, e3, e4) refl

-- Every datum of the checking account is read back unchanged from its data.
pub datum_of_data-datum_data :
    (d : CheckingAccountDatums) → IsInRange d → datum_of_data (datum_data d) ≡ ok d
unfolding datum_of_data datum_data checking_account_datum IsInRange i64_of
datum_of_data-datum_data (checking_account d) _ = refl
datum_of_data-datum_data (allowed_puller d) (small, next, every) =
    let pulled = i64_of-big_int_of (as_i64 d.amount_lovelace) (as_i64-IsI64 d.amount_lovelace) in
    allowed_puller_datum-ints (big_int (big_int_of (as_i64 d.amount_lovelace)))
      (big_int (big_int_of d.next_pull)) (big_int (big_int_of d.period)) d.owner.bytes
      d.puller.bytes d.spending_token d.checking_account_nft pulled
      (i64_of-big_int_of d.next_pull next) (i64_of-big_int_of d.period every)
    ∙ ap (λ n. ok (allowed_puller (record d { amount_lovelace = n })))
        (as_u64-as_i64 d.amount_lovelace small)

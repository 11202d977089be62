-- ===== src/Scripts/PlutusData/Numbers.antt =====
-- Integers as Plutus data (src/scripts/plutus_validator/plutus_data.rs).
use naumachia.Prelude.{
  ℕ, ◌+◌, ◌-◌, ◌%◌, ◌^◌, ◌<◌, ◌≡◌, ap, ◌∙◌, arith, Bool, true, false, if◌then◌else◌, u64_mod,
  Outcome, ok, err, panic, ◌>>=◌,
}
use naumachia.Prelude.Int.{ℤ, pos, negsuc, pos_part, neg_part, sub_ℕ, wrap_i64, IsI64}
use naumachia.Errors.{ScriptError}
use naumachia.Scripts.PlutusData.{BigInt, int, big_uint, big_nint, PlutusData, big_int}

-- `i64::is_negative`
abbrev is_negative : ℤ → Bool
is_negative (pos n) = false
is_negative (negsuc n) = true

-- `i64::unsigned_abs`
abbrev unsigned_abs : ℤ → ℕ
unsigned_abs (pos n) = n
unsigned_abs (negsuc n) = n + 1

-- The casts `as i64` and `as u64`.
unfoldable pub as_i64 : ℕ → ℤ
unfolding wrap_i64
as_i64 n = wrap_i64 (pos n)

unfoldable pub as_u64 : ℤ → ℕ
as_u64 (pos n) = n % 2 ^ 64
as_u64 (negsuc n) = 2 ^ 64 - 1 - n % 2 ^ 64

-- The unary minus of i64.
abbrev neg_i64 : ℤ → ℤ
neg_i64 z = wrap_i64 (sub_ℕ (neg_part z) (pos_part z))

-- `BigInt::from`
unfoldable pub big_int_of : ℤ → BigInt
big_int_of num = int (is_negative num) (unsigned_abs num)

-- `i64::from`, of a `BigInt` and of a reference to one; `todo!` panics.
unfoldable pub i64_of : {E : Type 0} → BigInt → Outcome E ℤ
unfolding as_i64
i64_of (int neg val) = let value = as_i64 val in ok (if neg then neg_i64 value else value)
i64_of (big_uint _) = panic
i64_of (big_nint _) = panic

-- `PlutusData::from`, of an i64 and of a u64.
unfoldable pub data_of_i64 : ℤ → PlutusData
unfolding big_int_of
data_of_i64 num = big_int (big_int_of num)

unfoldable pub data_of_u64 : ℕ → PlutusData
unfolding big_int_of as_i64
data_of_u64 value = big_int (big_int_of (as_i64 value))

-- `i64::try_from`
unfoldable pub i64_of_data : PlutusData → Outcome ScriptError ℤ
unfolding i64_of
i64_of_data (big_int inner) = i64_of inner
i64_of_data _ = err ScriptError.datum_deserialization

-- A cast to i64 and back gives the u64.
pub as_u64-as_i64 : (n : ℕ) → n < u64_mod → as_u64 (as_i64 n) ≡ n
unfolding as_u64 as_i64 wrap_i64
as_u64-as_i64 n h = ground arith

pub as_i64-IsI64 : (n : ℕ) → IsI64 (as_i64 n)
unfolding as_i64 wrap_i64
as_i64-IsI64 n = ground arith

-- An i64 survives the way into a big integer and back, also the least one.
pub i64_of-big_int_of : {E : Type 0} (z : ℤ) → IsI64 z → i64_of {E = E} (big_int_of z) ≡ ok z
unfolding i64_of big_int_of wrap_i64
i64_of-big_int_of (pos n) h = ground arith
i64_of-big_int_of (negsuc n) h = ground arith

-- Every i64 survives the way into Plutus data and back; every u64 does, with a cast at each end.
pub i64_of_data-data_of_i64 :
    (z : ℤ) (n : ℕ)
    → IsI64 z
    → n < u64_mod
    → (i64_of_data (data_of_i64 z) ≡ ok z)
      × ((i64_of_data (data_of_u64 n) >>= λ m. ok (as_u64 m)) ≡ ok n)
unfolding i64_of_data data_of_i64 data_of_u64
i64_of_data-data_of_i64 z n h lt = (
  i64_of-big_int_of z h,
  ap (λ (o : Outcome ScriptError ℤ). o >>= λ m. ok (as_u64 m))
        (i64_of-big_int_of (as_i64 n) (as_i64-IsI64 n))
      ∙ ap (λ m. ok m) (as_u64-as_i64 n lt),
)

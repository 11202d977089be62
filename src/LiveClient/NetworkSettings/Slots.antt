-- ===== src/LiveClient/NetworkSettings/Slots.antt =====
-- Times and slots determine each other (src/trireme_ledger_client/cml_client/network_settings.rs).
use naumachia.Prelude.{
  ℕ, zero, suc, ◌+◌, ◌-◌, ◌*◌, ◌/◌, ◌%◌, ◌^◌, ◌≤◌, ◌<◌, ◌≡◌, refl, arith, some, ok, u64_mod,
}
use native.Mathlib.Nat.{div-mul-le_self, lt-div-mul-add}
use naumachia.Prelude.Int.{
  ℤ, pos, negsuc, pos_part, neg_part, IsI64, ◌+ℤ◌, ◌*ℤ◌, wrap_i64, wrap_i64_id, ◌≤ℤ◌,
}
use naumachia.Scripts.PlutusData.Numbers.{as_i64, as_u64}
use naumachia.LiveClient.NetworkSettings.{
  NetworkSettings, checked_sub, quotient, slot_from_posix, posix_from_slot,
}

slots_mod :
    (q n : ℕ) → q < 2 ^ 63 → n < u64_mod → ((q % 2 ^ 64 + n) % 2 ^ 64 + 2 ^ 64 - n) % 2 ^ 64 ≡ q
slots_mod q n h k = omega arith

-- Settings with a positive slot length, in the ranges of their types.
pub record IsValid (s : NetworkSettings) : Type 0 where
  pub length : ℕ
  pub steps : s.slot_length ≡ pos length
  pub positive : 0 < length
  pub bounded : length < 2 ^ 63
  pub numbered : s.starting_slot_number < u64_mod
  pub started : IsI64 s.starting_slot_time

-- A time of type i64 from the start on, with a distance of type i64.
pub record IsAfter (s : NetworkSettings) (t : ℤ) : Type 0 where
  pub time_ok : IsI64 t
  pub since : ℕ
  pub near : since < 2 ^ 63
  pub apart :
      pos_part t + neg_part s.starting_slot_time
      ≡ since + (neg_part t + pos_part s.starting_slot_time)

checked_sub-IsAfter :
    (s : NetworkSettings) (t : ℤ) (h : IsAfter s t)
    → checked_sub t s.starting_slot_time ≡ some (pos h.since)
unfolding checked_sub
checked_sub-IsAfter s t h = ground (arith, h.near, h.apart)

quotient_pos : {E : Type 0} (d k : ℕ) → 0 < k → quotient {E = E} (pos d) (pos k) ≡ ok (pos (d / k))
unfolding quotient
quotient_pos d k h = ground arith

slot_from_posix-IsAfter :
    {E : Type 0} (s : NetworkSettings) (t : ℤ) (v : IsValid s) (h : IsAfter s t)
    → slot_from_posix {E = E} s t
      ≡ ok (some (((h.since / v.length) % 2 ^ 64 + s.starting_slot_number) % 2 ^ 64))
unfolding slot_from_posix as_u64
slot_from_posix-IsAfter {E} s t v h =
    rw
      (
        slot_from_posix,
        checked_sub-IsAfter s t h,
        v.steps,
        quotient_pos {E = E} h.since v.length v.positive,
      )
      refl

wrap_i64_pos : (q : ℕ) → q < 2 ^ 63 → wrap_i64 (pos q) ≡ pos q
unfolding wrap_i64
wrap_i64_pos q h = ground arith

factor-le : (q k : ℕ) → 0 < k → q * k < 2 ^ 63 → q < 2 ^ 63
factor-le q zero h lt = elim h [ ]
factor-le q (suc k) h lt = grind (arith, lt)

*ℤ_pos : (q k : ℕ) → pos q *ℤ pos k ≡ pos (q * k)
unfolding ◌*ℤ◌
*ℤ_pos q k = ground arith

-- The start of the slot.
slot_start : (s : NetworkSettings) (q length : ℕ) → ℤ
slot_start s q length = pos (q * length) +ℤ s.starting_slot_time

-- A shift from the start that stays at or before a time of type i64.
shift-IsI64 :
    (m d : ℕ) (z t : ℤ)
    → m ≤ d
    → pos_part t + neg_part z ≡ d + (neg_part t + pos_part z)
    → IsI64 z
    → IsI64 t
    → IsI64 (pos m +ℤ z)
unfolding ◌+ℤ◌
shift-IsI64 m d (pos a) (pos b) h e i j = ground arith
shift-IsI64 m d (pos a) (negsuc b) h e i j = ground arith
shift-IsI64 m d (negsuc a) (pos b) h e i j = ground arith
shift-IsI64 m d (negsuc a) (negsuc b) h e i j = ground arith

shift-parts :
    (m : ℕ) (z : ℤ) → pos_part (pos m +ℤ z) + neg_part z ≡ neg_part (pos m +ℤ z) + m + pos_part z
unfolding ◌+ℤ◌
shift-parts m (pos a) = ground arith
shift-parts m (negsuc a) = ground arith

posix_from_slot-number :
    (s : NetworkSettings) (v : IsValid s) (q : ℕ)
    → q * v.length < 2 ^ 63
    → IsI64 (slot_start s q v.length)
    → posix_from_slot s ((q % 2 ^ 64 + s.starting_slot_number) % 2 ^ 64) ≡ slot_start s q v.length
unfolding posix_from_slot slot_start as_i64
posix_from_slot-number s v q h k =
    let small = factor-le q v.length v.positive h in
    rw
      (
        posix_from_slot,
        slots_mod q s.starting_slot_number small v.numbered,
        v.steps,
        wrap_i64_pos q small,
        *ℤ_pos q v.length,
        wrap_i64_pos (q * v.length) h,
      )
      (wrap_i64_id (slot_start s q v.length) k)

-- For settings with a positive slot length, and a time from their start on, the slot that the time
-- lies in starts at or before the time, and ends after it.
pub slot_from_posix-bounds :
    {E : Type 0} (s : NetworkSettings) (t : ℤ)
    → IsValid s
    → IsAfter s t
    → (slot : ℕ) × (slot_from_posix {E = E} s t ≡ ok (some slot))
      × (posix_from_slot s slot ≤ℤ t)
      × (pos_part t + neg_part (posix_from_slot s slot)
          < pos_part (posix_from_slot s slot) + neg_part t + pos_part s.slot_length)
unfolding slot_start
slot_from_posix-bounds {E} s t v h =
    let q = h.since / v.length in
    let below = div-mul-le_self h.since v.length in
    let above = lt-div-mul-add {a = h.since} v.positive in
    let at = posix_from_slot-number s v q (omega (arith, below, h.near)) (
      shift-IsI64 (q * v.length) h.since s.starting_slot_time t below h.apart v.started
        h.time_ok) in
    let parts = shift-parts (q * v.length) s.starting_slot_time in
    (
      _,
      slot_from_posix-IsAfter s t v h,
      rw (at) (omega (arith, parts, below, h.apart)),
      rw (at, v.steps) (omega (arith, parts, above, h.apart)),
    )

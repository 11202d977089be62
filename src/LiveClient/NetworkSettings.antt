-- ===== src/LiveClient/NetworkSettings.antt =====
-- Slots and times of a network (src/trireme_ledger_client/cml_client/network_settings.rs).
pub mod Slots
pub mod Networks
use naumachia.Prelude.{
  ℕ, ◌+◌, ◌-◌, ◌/◌, ◌%◌, ◌^◌, Bool, ◌&&◌, ◌||◌, ltb, ◌==◌, nat_eq, if◌then◌else◌, Option, none,
  some, Outcome, ok, panic, ◌>>=◌, add_u64,
}
use naumachia.Prelude.Int.{ℤ, pos, negsuc, sub_ℕ, pos_part, neg_part, add_i64, mul_i64}
use naumachia.Scripts.PlutusData.Numbers.{as_i64, as_u64}

-- The networks of a configuration (src/trireme_ledger_client.rs).
pub data Network : Type 0 where
  preprod preview mainnet : Network

pub record NetworkSettings : Type 0 where
  pub network : ℕ
  pub slot_length : ℤ
  pub starting_slot_time : ℤ
  pub starting_slot_number : ℕ

-- `i64::checked_sub`
unfoldable pub checked_sub : ℤ → ℤ → Option ℤ
checked_sub a b =
    let d = sub_ℕ (pos_part a + neg_part b) (neg_part a + pos_part b) in
    if ltb (pos_part d) (2 ^ 63) && ltb (neg_part d) (2 ^ 63 + 1) then some d else none

-- Division of i64, which drops the fraction. It panics on zero, and where the quotient is 2^63.
unfoldable pub quotient : {E : Type 0} → ℤ → ℤ → Outcome E ℤ
quotient (pos a) (pos b) = if b == 0 then panic else ok (pos (a / b))
quotient (pos a) (negsuc b) = ok (sub_ℕ 0 (a / (b + 1)))
quotient (negsuc a) (pos b) = if b == 0 then panic else ok (sub_ℕ 0 ((a + 1) / b))
quotient (negsuc a) (negsuc b) =
    if (a == 2 ^ 63 - 1) && (b == 0) then panic else ok (pos ((a + 1) / (b + 1)))

unfoldable pub slot_from_posix : {E : Type 0} → NetworkSettings → ℤ → Outcome E (Option ℕ)
unfolding checked_sub quotient as_u64
slot_from_posix s posix = elim (checked_sub posix s.starting_slot_time) [
  | none ↦ ok none
  | some time_s ↦ quotient time_s s.slot_length >>= λ slots.
      ok (some (add_u64 (as_u64 slots) s.starting_slot_number))
]

unfoldable pub posix_from_slot : NetworkSettings → ℕ → ℤ
unfolding as_i64
posix_from_slot s slot =
    let slots = (slot + 2 ^ 64 - s.starting_slot_number) % 2 ^ 64 in
    add_i64 (mul_i64 (as_i64 slots) s.slot_length) s.starting_slot_time

-- `NetworkSettings::from`
unfoldable pub settings_of : Network → NetworkSettings
settings_of preprod = record {
  network = 0;
  slot_length = pos 1;
  starting_slot_time = pos 1655769600;
  starting_slot_number = 86400;
}
settings_of mainnet = record {
  network = 1;
  slot_length = pos 1;
  starting_slot_time = pos 1596059091;
  starting_slot_number = 4492800;
}
settings_of preview = record {
  network = 0;
  slot_length = pos 1;
  starting_slot_time = pos 1666656000;
  starting_slot_number = 0;
}

-- ===== src/LiveClient/NetworkSettings/Networks.antt =====
-- Slots of the networks that a configuration names
-- (src/trireme_ledger_client/cml_client/network_settings.rs).
use naumachia.Prelude.{ℕ, ◌+◌, ◌-◌, ◌%◌, ◌^◌, ◌<◌, ◌≡◌, arith, ok, some}
use naumachia.Prelude.Int.{pos, wrap_i64, ◌+ℤ◌, ◌*ℤ◌}
use naumachia.LiveClient.NetworkSettings.{
  Network, preprod, preview, mainnet, slot_from_posix, posix_from_slot, settings_of,
}

-- Every non-negative time of type i64 has a slot of each network, and is the time of that slot; no
-- time before the network's first slot is refused.
pub slot_from_posix-of_network :
    {E : Type 0} (n : Network) (t : ℕ)
    → t < 2 ^ 63
    → (slot : ℕ) × (slot_from_posix {E = E} (settings_of n) (pos t) ≡ ok (some slot))
      × (posix_from_slot (settings_of n) slot ≡ pos t)
unfolding slot_from_posix posix_from_slot settings_of wrap_i64 ◌+ℤ◌ ◌*ℤ◌
slot_from_posix-of_network preprod t h =
    ((t + 2 ^ 64 - 1655769600 + 86400) % 2 ^ 64, ground arith, ground arith)
slot_from_posix-of_network preview t h =
    ((t + 2 ^ 64 - 1666656000) % 2 ^ 64, ground arith, ground arith)
slot_from_posix-of_network mainnet t h =
    ((t + 2 ^ 64 - 1596059091 + 4492800) % 2 ^ 64, ground arith, ground arith)

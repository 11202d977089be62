-- ===== src/Trireme/Environment/Failures.antt =====
-- A new environment that could not be set up (`new_env_impl`, trireme/src/environment.rs).
use naumachia.Scripts.PlutusData.{PlutusData}
use naumachia.Trireme.Host.{Host}

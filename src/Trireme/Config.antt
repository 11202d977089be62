-- ===== src/Trireme/Config.antt =====
-- The environments of a configuration (`TriremeConfig`, src/trireme_ledger_client.rs).
pub mod Reachable
use naumachia.Prelude.{
  Bool, true, false, ◌||◌, ◌==◌, string_eq, if◌then◌else◌, Option, none, some, List, [], ◌∷◌, ◌++◌,
  String, Outcome, ok, err,
}
use naumachia.Errors.{Error, trireme}

pub record TriremeConfig : Type 0 where
  pub current_env : Option String
  pub envs : List String

-- `Vec::contains`
unfoldable pub contains : List String → String → Bool
contains [] name = false
contains (env ∷ envs) name = (env == name) || contains envs name

-- `retain(|env| env != env_name)`
unfoldable pub without : List String → String → List String
without [] name = []
without (env ∷ envs) name = let rest = without envs name in if env == name then rest else env ∷ rest

-- `TriremeConfig::new`
unfoldable pub new : String → TriremeConfig
new current_env = record { current_env = some current_env; envs = current_env ∷ [] }

unfoldable pub set_new_env : TriremeConfig → String → Outcome Error TriremeConfig
unfolding contains
set_new_env config name =
    if contains config.envs name
    then err trireme
    else ok (record { current_env = some name; envs = config.envs ++ name ∷ [] })

unfoldable pub switch_env : TriremeConfig → String → Outcome Error TriremeConfig
unfolding contains
switch_env config name =
    if contains config.envs name
    then ok (record config { current_env = some name })
    else err trireme

-- The current environment, after one was removed.
unfoldable pub current_without : Option String → String → Option String
current_without none name = none
current_without (some env) name = if env == name then none else some env

unfoldable pub remove_env : TriremeConfig → String → Outcome Error TriremeConfig
unfolding contains without current_without
remove_env config name =
    if contains config.envs name
    then ok (record {
      current_env = current_without config.current_env name;
      envs = without config.envs name;
    })
    else err trireme

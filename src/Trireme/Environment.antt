-- ===== src/Trireme/Environment.antt =====
-- The environments' commands (trireme/src/environment.rs): how an environment is set up, switched to
-- and removed. The prompts and the lines that are printed are left out.
pub mod Setup
pub mod NewEnv
pub mod Commands
pub mod Confirmed
pub mod Phrases
pub mod Paths
pub mod Frames
pub mod Cuts
pub mod Untouched
pub mod Mocked
pub mod Failures
pub mod Removed
use naumachia.Prelude.{
  Bool, true, false, ◌&&◌, ◌==◌, list_eq, string_eq, if◌then◌else◌, Option, none, some, List, [],
  ◌∷◌, String, Outcome, ok, err, ok_or, expect, ℕ, zero, suc,
}
use naumachia.HashMap.{HashMap}
use naumachia.Errors.{Error, LedgerClientError}
use naumachia.Effects.{Run, ◌>>=◌, ◌>>◌, lift, return, raised}
use naumachia.Trireme.Config.{TriremeConfig, switch_env, remove_env}
use naumachia.Trireme.Host.{
  FilePath, Host, TomlLib, parent, path_to_trireme_config_file, path_to_client_config_file,
  write_toml_struct_to_file, ask_text, ask_choice,
}
use naumachia.Trireme.Client.{Formats, get_trireme_config_from_file}

-- The errors that the commands end in (`anyhow`): an error of the library, one of the command line,
-- one of the terminal, one of the file system, and an address that has no such text.
pub data CliError : Type 0 where
  naumachia_error : Error → CliError
  ledger_client_error : LedgerClientError → CliError
  cli terminal io bad_address : CliError

-- `Vec::get`
unfoldable pub get_elem? {ℓ} : {A : Type ℓ} → List A → ℕ → Option A
get_elem? [] index = none
get_elem? (x ∷ xs) zero = some x
get_elem? (x ∷ xs) (suc index) = get_elem? xs index

-- A path within a directory.
unfoldable pub is_within : FilePath → FilePath → Bool
is_within [] path = true
is_within (name ∷ dir) [] = false
is_within (name ∷ dir) (part ∷ path) = (name == part) && is_within dir path

-- The files outside a directory.
unfoldable pub files_outside : FilePath → HashMap FilePath String → HashMap FilePath String
unfolding is_within
files_outside dir [] = []
files_outside dir (file ∷ files) =
    let rest = files_outside dir files in if is_within dir file.0 then rest else file ∷ rest

-- Whether a file is deeper than a path.
unfoldable pub has_files : FilePath → HashMap FilePath String → Bool
unfolding is_within
has_files dir [] = false
has_files dir (file ∷ files) =
    let rest = has_files dir files in
    if dir == file.0 then rest else if is_within dir file.0 then true else rest

-- `remove_dir_all`: a directory stands where a file is within it.
unfoldable pub remove_dir_all : FilePath → Run Host CliError (Unit {0})
unfolding files_outside has_files
remove_dir_all dir host =
    if has_files dir host.files
    then (ok tt, record host { files = files_outside dir host.files })
    else (err io, host)

module _ (home : Option FilePath) (formats : Formats) where
  unfoldable pub write_trireme_config : TriremeConfig → Run Host CliError (Unit {0})
  unfolding path_to_trireme_config_file write_toml_struct_to_file
  write_trireme_config trireme_config = raised naumachia_error (do
    file_path ← path_to_trireme_config_file home
    write_toml_struct_to_file formats.configs file_path trireme_config)

  unfoldable pub delete_directory : String → Run Host CliError (Unit {0})
  unfolding path_to_client_config_file parent remove_dir_all
  delete_directory sub_dir = do
    file_path ← raised naumachia_error (path_to_client_config_file home sub_dir)
    parent_dir ← lift (ok_or (parent file_path) cli)
    remove_dir_all parent_dir

  -- The configuration that a command changes.
  unfoldable pub existing_config : Run Host CliError TriremeConfig
  unfolding get_trireme_config_from_file
  existing_config = do
    config ← raised naumachia_error (get_trireme_config_from_file home formats)
    lift (ok_or config cli)

  -- The name that the user picks; an index out of range panics.
  unfoldable pub picked_env : TriremeConfig → Run Host CliError String
  unfolding ask_choice get_elem?
  picked_env config = do index ← ask_choice terminal; lift (expect (get_elem? config.envs index))

  unfoldable pub switch_env_impl : Run Host CliError (Unit {0})
  unfolding existing_config picked_env switch_env write_trireme_config
  switch_env_impl = do
    config ← existing_config
    name ← picked_env config
    switched ← raised naumachia_error (lift (switch_env config name))
    write_trireme_config switched

  -- What follows the confirmation: the name that was picked, and the name that was typed.
  unfoldable pub remove_confirmed : TriremeConfig → String → String → Run Host CliError (Unit {0})
  unfolding remove_env write_trireme_config delete_directory
  remove_confirmed config name confirmation_name =
      if confirmation_name == name
      then (do
        removed ← raised naumachia_error (lift (remove_env config name))
        _ ← write_trireme_config removed
        delete_directory name)
      else return tt

  unfoldable pub remove_env_impl : Run Host CliError (Unit {0})
  unfolding existing_config picked_env ask_text remove_confirmed
  remove_env_impl = do
    config ← existing_config
    name ← picked_env config
    confirmation_name ← ask_text terminal
    remove_confirmed config name confirmation_name

  -- The name that is printed.
  unfoldable pub env_impl : Run Host CliError (Option String)
  unfolding get_trireme_config_from_file
  env_impl = do
    config ← raised naumachia_error (get_trireme_config_from_file home formats)
    return (elim config [ none ↦ none | some found ↦ found.current_env ])

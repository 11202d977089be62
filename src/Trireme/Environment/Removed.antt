-- ===== src/Trireme/Environment/Removed.antt =====
-- An environment that was removed (`remove_env_impl`, trireme/src/environment.rs).
use naumachia.Prelude.{
  ◌≡◌, sym, ap, ◌∙◌, arith, Bool, true, false, Bool-cases, inl, inr, ◌==◌, ==-refl, list_eq,
  string_eq, if◌then◌else◌, none, some, [], ◌∷◌, String, Outcome, ok, ok_or, err,
}
use naumachia.HashMap.{HashMap, get, insert}
use naumachia.HashMap.Laws.{get-insert}
use naumachia.Effects.{
  Run, ◌>>=◌, lift, return, raised, >>=-eq-ok, >>=-of-ok, raised-eq-ok, raised-of-ok,
}
use naumachia.Trireme.Config.{TriremeConfig, remove_env}
use naumachia.Trireme.Host.{
  FilePath, Host, join, push, parent, file_at, trireme_config_folder, config_file,
  path_to_trireme_config_dir, path_to_client_config_file, path_to_trireme_config_file,
  write_toml_struct_to_file,
}
use naumachia.Trireme.Client.{Formats}
use naumachia.Trireme.Environment.{
  CliError, naumachia_error, cli, io, is_within, files_outside, has_files, remove_dir_all,
  delete_directory, write_trireme_config, remove_confirmed,
}
use naumachia.Trireme.Environment.Phrases.{write_toml_struct_to_file-eq-ok}
use naumachia.Trireme.Environment.Paths.{parent-join}

-- A lookup, after a directory was removed.
get-files_outside :
    (dir path : FilePath) (files : HashMap FilePath String)
    → get path (files_outside dir files) ≡ (if is_within dir path then none else get path files)
unfolding get files_outside
get-files_outside dir path [] = ground arith
get-files_outside dir path (file ∷ files) = elim (Bool-cases (path == file.0)) [
  | inl same ↦ ground (
    arith,
    get-files_outside dir path files,
    same,
    ap (is_within dir) (((list_eq ⦃e = string_eq⦄).beq_iff path file.0).0 same),
  )
  | inr other ↦ ground (arith, get-files_outside dir path files, other)
]

-- How a removal ends.
abbrev removal : Bool → Host → Host → Outcome CliError (Unit {0}) × Host
removal some_files host left = if some_files then (ok tt, left) else (err io, host)

removal-at :
    (some_files : Bool) (host left : Host) {u : Unit {0}} {host' : Host}
    → removal some_files host left ≡ (ok u, host')
    → host' ≡ left
removal-at true host left h = sym (ap (λ x. x.1) h)
removal-at false host left h = absurd (cc (ap (λ x. x.0) h))

-- A directory that was removed has no file any more, and each file outside it is as it was.
remove_dir_all-file_at :
    (dir path : FilePath) (host : Host) {u : Unit {0}} {host' : Host}
    → remove_dir_all dir host ≡ (ok u, host')
    → file_at path host' ≡ (if is_within dir path then none else file_at path host)
unfolding remove_dir_all
remove_dir_all-file_at dir path host h =
    ap (file_at path) (removal-at (has_files dir host.files) host _ h)
    ∙ get-files_outside dir path host.files

delete_directory-file_at :
    (home_dir : FilePath) (formats : Formats) (name : String) (path : FilePath) (host : Host)
    {u : Unit {0}} {host' : Host}
    → delete_directory (some home_dir) formats name host ≡ (ok u, host')
    → file_at path host' ≡ (
        if is_within (push (join home_dir trireme_config_folder) name) path
        then none
        else file_at path host)
unfolding delete_directory path_to_client_config_file path_to_trireme_config_dir
delete_directory-file_at home_dir formats name path host h =
    let dir : FilePath = push (join home_dir trireme_config_folder) name in
    let known : Run Host CliError FilePath = lift (ok_or (parent (join dir config_file)) cli) in
    let opened : known host ≡ (ok dir, host) =
      ap (λ d. (ok_or d cli, host)) (parent-join dir config_file) in
    remove_dir_all-file_at dir path host (sym (>>=-of-ok known remove_dir_all host opened) ∙ h)

write_trireme_config-eq-ok :
    (home_dir : FilePath) (formats : Formats) (config : TriremeConfig) (host : Host) {u : Unit {0}}
    {host' : Host}
    → write_trireme_config (some home_dir) formats config host ≡ (ok u, host')
    → (t : String) × (formats.configs.to_string config ≡ some t)
      × (host'.files ≡ insert (join (join home_dir trireme_config_folder) config_file) t host.files)
unfolding write_trireme_config path_to_trireme_config_file path_to_trireme_config_dir
write_trireme_config-eq-ok home_dir formats config host h =
    let file : FilePath = join (join home_dir trireme_config_folder) config_file in
    write_toml_struct_to_file-eq-ok formats.configs file config host
      (raised-of-ok naumachia_error (write_toml_struct_to_file formats.configs file config) host h)

-- Where the name of an environment, whatever it is, is confirmed and the removal returns: every file is
-- gone in the directory that the operating system takes the name for, from Trireme's own directory on,
-- which is the home directory for a name of two dots; the file of Trireme's configuration, where it is
-- none of these, is the text of the configuration without the environment; and no other file changed.
pub remove_confirmed-file_at :
    (home_dir : FilePath) (formats : Formats) (config : TriremeConfig) (name : String) (host : Host)
    (u : Unit {0}) (host' : Host)
    → remove_confirmed (some home_dir) formats config name name host ≡ (ok u, host')
    → (removed : TriremeConfig) × (contents : String) × (remove_env config name ≡ ok removed)
      × (formats.configs.to_string removed ≡ some contents)
      × ((path : FilePath)
          → file_at path host' ≡ (
              if is_within (push (join home_dir trireme_config_folder) name) path
              then none
              else if path == join (join home_dir trireme_config_folder) config_file
              then some contents
              else file_at path host))
unfolding remove_confirmed
remove_confirmed-file_at home_dir formats config name host u host' h =
    let dir : FilePath = join home_dir trireme_config_folder in
    let removing : Run Host CliError TriremeConfig =
      raised naumachia_error (lift (remove_env config name)) in
    let deleting : Unit {0} → Run Host CliError (Unit {0}) =
      λ _. delete_directory (some home_dir) formats name in
    let rest : TriremeConfig → Run Host CliError (Unit {0}) =
      λ removed. write_trireme_config (some home_dir) formats removed >>= deleting in
    let opened : (removing >>= rest) host ≡ (ok u, host') =
      sym
        (ap (λ b. (if b then removing >>= rest else return tt) host) (==-refl ⦃e = string_eq⦄ name))
      ∙ h in
    let (removed, without, later) = >>=-eq-ok removing rest host opened in
    let write = write_trireme_config (some home_dir) formats removed in
    let (_, written, deleted) = >>=-eq-ok write deleting host later in
    let (t, text, inserted) =
      write_trireme_config-eq-ok home_dir formats removed host (λ i. (written i, (write host).1)) in
    (
      removed,
      t,
      raised-eq-ok naumachia_error (lift (remove_env config name)) host without,
      text,
      λ path.
          delete_directory-file_at home_dir formats name path (write host).1 deleted
          ∙ ap (λ found. if is_within (push dir name) path then none else found)
              (ap (get path) inserted ∙ get-insert (join dir config_file) path t host.files),
    )

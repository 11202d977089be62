-- ===== src/Trireme/Host.antt =====
-- The machine that Trireme runs on, and its TOML files (src/trireme_ledger_client.rs): the files by
-- their paths, what the user answers next, and what the disk does at each write that comes.
use Prim.Native.String.{[] as empty_text, ◌∷◌ as char_cons}
use Prim.Native.Char.{Char, code}
use naumachia.Prelude.{
  Option, none, some, List, [], ◌∷◌, ◌++◌, String, list_eq, string_eq, nat_eq, ok, err, ok_or,
  Outcome, ℕ, ◌==◌, if◌then◌else◌,
}
use naumachia.Prelude.Int.{ℤ}
use naumachia.HashMap.{HashMap, get, insert}
use naumachia.Errors.{Error, trireme, toml}
use naumachia.Effects.{Run, ◌>>=◌, lift, return}

-- The names from the root on, none of them `.` or `..`.
abbrev pub FilePath : Type 0
FilePath = List String

-- A line of text, a password included, a number, or the index of a choice. No number asks for the
-- default, and so does an empty line where the prompt has one.
pub data Answer : Type 0 where
  text : String → Answer
  number : Option ℤ → Answer
  choice : ℕ → Answer

-- What the disk does at a write: it is done; it is refused before the file is opened; or it is cut
-- after the file was opened, which left it empty, and a part of the text was written.
pub data Written : Type 0 where
  done refused : Written
  cut : String → Written

-- All writes are done that come after those that are listed.
pub record Host : Type 0 where
  pub files : HashMap FilePath String
  pub answers : List Answer
  pub disk : List Written

-- The crate `toml`, for one type; `none` stands for an `Err`.
pub record TomlLib (X : Type 0) : Type 0 where
  pub to_string : X → Option String
  pub from_str : String → Option X

abbrev pub trireme_config_folder : String
trireme_config_folder = ".trireme"

-- `TRIREME_CONFIG_FILE` and `CLIENT_CONFIG_FILE`
abbrev pub config_file : String
config_file = "config.toml"

-- `PathBuf::push`, of a plain name.
abbrev pub join : FilePath → String → FilePath
join path name = path ++ name ∷ []

-- `Path::parent`
unfoldable pub parent : FilePath → Option FilePath
parent [] = none
parent (name ∷ []) = some []
parent (name ∷ path) = elim (parent path) [ none ↦ none | some dir ↦ some (name ∷ dir) ]

-- The text before the first slash, with one more character.
unfoldable pub with_char : Char → List String → List String
with_char c [] = char_cons c empty_text ∷ []
with_char c (part ∷ parts) = char_cons c part ∷ parts

-- The parts of a name between its slashes.
unfoldable pub split_slash : String → List String
unfolding with_char
split_slash empty_text = "" ∷ []
split_slash (char_cons c name) =
    let parts = split_slash name in if code c == 47 then "" ∷ parts else with_char c parts

-- The way of the operating system through one part of a path.
unfoldable pub enter : FilePath → String → FilePath
unfolding parent
enter path part =
    if part == ""
    then path
    else if part == "."
    then path
    else if part == ".."
    then elim (parent path) [ none ↦ [] | some dir ↦ dir ]
    else join path part

unfoldable pub resolve : FilePath → List String → FilePath
unfolding enter
resolve path [] = path
resolve path (part ∷ parts) = resolve (enter path part) parts

-- An absolute name starts at the root.
unfoldable pub start_of : FilePath → List String → FilePath
start_of path [] = path
start_of path (part ∷ []) = path
start_of path (part ∷ next ∷ parts) = if part == "" then [] else path

-- `PathBuf::push`, of any name, and what the operating system then takes the path for, where there are
-- no symbolic links.
unfoldable pub push : FilePath → String → FilePath
unfolding split_slash start_of resolve
push path name = let parts = split_slash name in resolve (start_of path parts) parts

module _ (home : Option FilePath) where
  unfoldable pub path_to_trireme_config_dir : Run Host Error FilePath
  path_to_trireme_config_dir = do
    dir ← lift (ok_or home trireme)
    return (join dir trireme_config_folder)

  unfoldable pub path_to_trireme_config_file : Run Host Error FilePath
  unfolding path_to_trireme_config_dir
  path_to_trireme_config_file = do dir ← path_to_trireme_config_dir; return (join dir config_file)

  unfoldable pub path_to_client_config_file : String → Run Host Error FilePath
  unfolding path_to_trireme_config_dir push
  path_to_client_config_file sub_dir = do
    dir ← path_to_trireme_config_dir
    return (join (push dir sub_dir) config_file)

-- The contents of a file.
abbrev pub file_at : FilePath → Host → Option String
file_at path host = get path host.files

-- A write of a file, by what the disk does at this one and the later ones.
unfoldable pub wrote : List Written → FilePath → String → Run Host Error (Unit {0})
unfolding insert
wrote [] path contents host = (ok tt, record host { files = insert path contents host.files })
wrote (done ∷ later) path contents host =
    (ok tt, record host { files = insert path contents host.files; disk = later })
wrote (refused ∷ later) path contents host = (err toml, record host { disk = later })
wrote (cut part ∷ later) path contents host =
    (err toml, record host { files = insert path part host.files; disk = later })

-- `create_dir_all`, `open` and `write_all`.
unfoldable pub write_file : FilePath → String → Run Host Error (Unit {0})
unfolding wrote
write_file path contents host = wrote host.disk path contents host

module _ {X : Type 0} (lib : TomlLib X) where
  unfoldable pub write_toml_struct_to_file : FilePath → X → Run Host Error (Unit {0})
  unfolding parent write_file
  write_toml_struct_to_file file_path toml_struct = do
    serialized ← lift (ok_or (lib.to_string toml_struct) toml)
    _ ← lift (ok_or (parent file_path) toml)
    write_file file_path serialized

  -- A file that does not exist is read as nothing.
  unfoldable pub parsed : Option String → Run Host Error (Option X)
  parsed none = return none
  parsed (some contents) = do
    toml_struct ← lift (ok_or (lib.from_str contents) toml)
    return (some toml_struct)

  unfoldable pub read_toml_struct_from_file : FilePath → Run Host Error (Option X)
  unfolding parsed get
  read_toml_struct_from_file file_path host = parsed (file_at file_path host) host

-- What the user typed, and the answers that are left; the terminal's error where that is no text. An
-- empty line is asked for again.
unfoldable pub typed : {E : Type 0} → E → List Answer → Outcome E String × List Answer
typed e [] = (err e, [])
typed e (text line ∷ rest) =
    let later = typed e rest in if line == "" then later else (ok line, rest)
typed e (number _ ∷ rest) = (err e, rest)
typed e (choice _ ∷ rest) = (err e, rest)

-- `interact` and `interact_text`
unfoldable pub ask_text : {E : Type 0} → E → Run Host E String
unfolding typed
ask_text e host = let (line, rest) = typed e host.answers in (line, record host { answers = rest })

unfoldable pub chosen : {E : Type 0} → E → List Answer → Outcome E ℕ × List Answer
chosen e [] = (err e, [])
chosen e (choice index ∷ rest) = (ok index, rest)
chosen e (text _ ∷ rest) = (err e, rest)
chosen e (number _ ∷ rest) = (err e, rest)

-- `Select::interact`
unfoldable pub ask_choice : {E : Type 0} → E → Run Host E ℕ
unfolding chosen
ask_choice e host =
    let (index, rest) = chosen e host.answers in (index, record host { answers = rest })

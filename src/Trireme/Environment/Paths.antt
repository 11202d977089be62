-- ===== src/Trireme/Environment/Paths.antt =====
-- The paths of an environment's files (trireme/src/environment.rs, src/trireme_ledger_client.rs), for
-- names that are plain and for all others.
use naumachia.Prelude.{◌≡◌, refl, ◌≢◌, arith, string_eq, some, [], ◌∷◌, String}
use naumachia.Trireme.Host.{FilePath, join, push, split_slash, enter, resolve, start_of, parent}

-- One name, without a slash, and no name that the operating system knows.
pub record IsPlain (name : String) : Type 0 where
  pub one_part : split_slash name ≡ name ∷ []
  pub some_text : name ≢ ""
  pub not_here : name ≢ "."
  pub not_above : name ≢ ".."

-- A plain name is one more name of the path.
pub push-IsPlain : (dir : FilePath) (name : String) → IsPlain name → push dir name ≡ join dir name
unfolding push resolve enter start_of
push-IsPlain dir name plain = ground (
  arith,
  plain.one_part,
  string_eq.beq_iff name "",
  string_eq.beq_iff name ".",
  string_eq.beq_iff name "..",
  plain.some_text,
  plain.not_here,
  plain.not_above,
)

-- A file within a subdirectory is not a file of the directory.
join-join-≢-join : (dir : FilePath) (a b c : String) → join (join dir a) b ≢ join dir c
join-join-≢-join [] a b c h = cc h
join-join-≢-join (name ∷ dir) a b c h = join-join-≢-join dir a b c (cc h)

-- No file of an environment with a plain name is one of the directory of the environments.
pub join-push-≢-join :
    (dir : FilePath) (name : String)
    → IsPlain name
    → (a b : String) → join (push dir name) a ≢ join dir b
join-push-≢-join dir name plain a b h =
    join-join-≢-join dir name a b (rw⁻¹ (push-IsPlain dir name plain) h)

pub parent-join : (dir : FilePath) (name : String) → parent (join dir name) ≡ some dir
unfolding parent
parent-join [] name = refl
parent-join (a ∷ []) name = refl
parent-join (a ∷ b ∷ dir) name = rw (parent-join (b ∷ dir) name) refl

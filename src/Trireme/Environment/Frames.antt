-- ===== src/Trireme/Environment/Frames.antt =====
-- What a call leaves as it was: a file that none of its steps writes (trireme/src/environment.rs,
-- src/trireme_ledger_client.rs).
use naumachia.Prelude.{
  ◌≡◌, refl, ap, ◌∙◌, ◌≢◌, arith, Option, none, some, List, [], ◌∷◌, String, list_eq, string_eq,
  Outcome, ok, err, panic, ok_or,
}
use naumachia.HashMap.{get, insert}
use naumachia.HashMap.Laws.{get-insert}
use naumachia.Errors.{toml}
use naumachia.Effects.{Run, ◌>>=◌, lift, return, raised, >>=-of-ok}
use naumachia.Trireme.Host.{
  FilePath, Host, Written, done, refused, cut, TomlLib, parent, file_at, wrote, write_file,
  write_toml_struct_to_file, read_toml_struct_from_file, parsed,
}
use naumachia.Trireme.ToClient.{in_file}

-- The call leaves the file as it was, however it ends.
pub record Keeps {E A : Type 0} (path : FilePath) (m : Run Host E A) : Type 0 where
  pub same : (host : Host) → file_at path (m host).1 ≡ file_at path host

insert-file_at :
    (path other : FilePath) (contents : String) (host : Host)
    → other ≢ path
    → file_at path (record host { files = insert other contents host.files }) ≡ file_at path host
unfolding get
insert-file_at path other contents host differs =
    ground (
      arith,
      get-insert other path contents host.files,
      (list_eq ⦃e = string_eq⦄).beq_iff path other,
    )

wrote-file_at :
    (disk : List Written) (path other : FilePath) (contents : String) (host : Host)
    → other ≢ path
    → file_at path (wrote disk other contents host).1 ≡ file_at path host
unfolding wrote
wrote-file_at [] path other contents host differs = insert-file_at path other contents host differs
wrote-file_at (done ∷ later) path other contents host differs =
    insert-file_at path other contents host differs
wrote-file_at (refused ∷ later) path other contents host differs = refl
wrote-file_at (cut part ∷ later) path other contents host differs =
    insert-file_at path other part host differs

left-at :
    (path other : FilePath) (left : Option String) (host : Host)
    → other ≢ path
    → file_at path (elim left [
      | none ↦ host
      | some contents ↦ record host { files = insert other contents host.files }
    ])
      ≡ file_at path host
left-at path other none host differs = refl
left-at path other (some contents) host differs = insert-file_at path other contents host differs

-- How a bind goes on after the end of its first call.
abbrev pub after : {E A B : Type 0} → (A → Run Host E B) → Outcome E A → Host → Outcome E B × Host
after f r u = elim r [ ok a ↦ f a u | err e ↦ (err e, u) | panic ↦ (panic, u) ]

module _ {E : Type 0} (path : FilePath) where
  bind-at :
      {A B : Type 0} (f : A → Run Host E B)
      → ((a : A) → Keeps path (f a))
      → (r : Outcome E A) (u : Host) → file_at path (after f r u).1 ≡ file_at path u
  bind-at f keeps (ok a) u = (keeps a).same u
  bind-at f keeps (err e) u = refl
  bind-at f keeps panic u = refl

  pub bind-Keeps :
      {A B : Type 0} {m : Run Host E A} {f : A → Run Host E B}
      → Keeps path m
      → ((a : A) → Keeps path (f a))
      → Keeps path (m >>= f)
  bind-Keeps {m = m} {f} first later = record {
    same = λ host. bind-at f later (m host).0 (m host).1 ∙ first.same host;
  }

  -- A first call whose end is known.
  pub bind-known-Keeps :
      {A B : Type 0} {m : Run Host E A} (f : A → Run Host E B) (a : A)
      → ((host : Host) → m host ≡ (ok a, host))
      → Keeps path (f a)
      → Keeps path (m >>= f)
  bind-known-Keeps {m = m} f a known later = record {
    same = λ host. ap (λ r. file_at path r.1) (>>=-of-ok m f host (known host)) ∙ later.same host;
  }

  pub lift-Keeps : {A : Type 0} (r : Outcome E A) → Keeps path (lift r)
  lift-Keeps r = record { same = λ host. refl }

  pub return-Keeps : {A : Type 0} (a : A) → Keeps {E = E} path (return a)
  return-Keeps a = record { same = λ host. refl }

  pub in_file-Keeps :
      {X : Type 0} (other : FilePath) (call : Option String → Outcome E X × Option String)
      → other ≢ path
      → Keeps path (in_file other call)
  unfolding in_file
  in_file-Keeps other call differs = record {
    same = λ host. left-at path other (call (file_at other host)).1 host differs;
  }

pub raised-Keeps :
    {E F A : Type 0} (path : FilePath) (f : F → E) {m : Run Host F A}
    → Keeps path m
    → Keeps path (raised f m)
raised-Keeps path f keeps = record { same = keeps.same }

module _ {X : Type 0} (lib : TomlLib X) (path other : FilePath) where
  parsed-Keeps : (contents : Option String) → Keeps path (parsed lib contents)
  unfolding parsed
  parsed-Keeps none = return-Keeps path none
  parsed-Keeps (some contents) =
      bind-Keeps path (lift-Keeps path (ok_or (lib.from_str contents) toml))
        λ x. return-Keeps path (some x)

  pub read_toml_struct_from_file-Keeps : Keeps path (read_toml_struct_from_file lib other)
  unfolding read_toml_struct_from_file
  read_toml_struct_from_file-Keeps = record {
    same = λ host. (parsed-Keeps (file_at other host)).same host;
  }

  pub write_toml_struct_to_file-Keeps :
      (x : X) → other ≢ path → Keeps path (write_toml_struct_to_file lib other x)
  unfolding write_toml_struct_to_file write_file
  write_toml_struct_to_file-Keeps x differs =
      bind-Keeps path (lift-Keeps path (ok_or (lib.to_string x) toml)) λ serialized.
        bind-Keeps path (lift-Keeps path (ok_or (parent other) toml))
          λ _. record { same = λ host. wrote-file_at host.disk path other serialized host differs }

-- ===== src/Trireme/Environment/Cuts.antt =====
-- A call that fails: the file that it was to write at its end is as it was, or that write was cut
-- (trireme/src/environment.rs, src/trireme_ledger_client.rs).
use naumachia.Prelude.{
  ◌≡◌, refl, ap, ◌∙◌, ◌≢◌, List, [], ◌∷◌, String, ◌⊎◌, inl, inr, list_eq, string_eq, Outcome, ok,
  err, panic, ok_or, map_err,
}
use naumachia.HashMap.{insert}
use naumachia.Errors.{toml}
use naumachia.Effects.{Run, ◌>>=◌, raised}
use naumachia.Trireme.Host.{
  FilePath, Host, Written, done, refused, cut, TomlLib, parent, file_at, wrote, write_file,
  write_toml_struct_to_file,
}
use naumachia.Trireme.Environment.Frames.{Keeps, after, lift-Keeps}

-- The call ended with the error in a write of the file that was cut, before which the file was as it
-- was when the call began.
pub record IsCut {E A : Type 0} (path : FilePath) (failed : E) (host : Host)
    (end : Outcome E A × Host) : Type 0 where
  pub part : String
  pub later : List Written
  pub start : Host
  pub same : file_at path start ≡ file_at path host
  pub next : start.disk ≡ cut part ∷ later
  pub ends : end ≡ (err failed, record start { files = insert path part start.files; disk = later })

-- Where the call does not return, it leaves the file as it was, or a write of the file was cut.
pub record KeepsUnlessCut {E A : Type 0} (path : FilePath) (failed : E) (m : Run Host E A)
    : Type 0 where
  pub same :
      (host : Host)
      → ((a : A) → (m host).0 ≢ ok a)
      → (file_at path (m host).1 ≡ file_at path host) ⊎ IsCut path failed host (m host)

module _ {E : Type 0} (path : FilePath) where
  -- What the first call kept is kept as well.
  pub from_start :
      {A : Type 0} (failed : E) (host u : Host) (end : Outcome E A × Host)
      → file_at path u ≡ file_at path host
      → (file_at path end.1 ≡ file_at path u) ⊎ IsCut path failed u end
      → (file_at path end.1 ≡ file_at path host) ⊎ IsCut path failed host end
  from_start failed host u end kept (inl same) = inl (same ∙ kept)
  from_start failed host u end kept (inr is_cut) = inr (record {
    part = is_cut.part;
    later = is_cut.later;
    start = is_cut.start;
    same = is_cut.same ∙ kept;
    next = is_cut.next;
    ends = is_cut.ends;
  })

  bind-KeepsUnlessCut-at :
      {A B : Type 0} (failed : E) (f : A → Run Host E B)
      → ((a : A) → KeepsUnlessCut path failed (f a))
      → (r : Outcome E A) (u : Host) → ((b : B) → (after f r u).0 ≢ ok b)
      → (file_at path (after f r u).1 ≡ file_at path u) ⊎ IsCut path failed u (after f r u)
  bind-KeepsUnlessCut-at failed f keeps (ok a) u fails = (keeps a).same u fails
  bind-KeepsUnlessCut-at failed f keeps (err e) u fails = inl refl
  bind-KeepsUnlessCut-at failed f keeps panic u fails = inl refl

  pub bind-KeepsUnlessCut :
      {A B : Type 0} (failed : E) {m : Run Host E A} {f : A → Run Host E B}
      → Keeps path m
      → ((a : A) → KeepsUnlessCut path failed (f a))
      → KeepsUnlessCut path failed (m >>= f)
  bind-KeepsUnlessCut failed {m} {f} first later = record {
    same = λ host fails.
        from_start failed host (m host).1 _ (first.same host)
          (bind-KeepsUnlessCut-at failed f later (m host).0 (m host).1 fails);
  }

-- The cut write of a call whose errors are raised.
raised-IsCut :
    {E F A : Type 0} (path : FilePath) (f : F → E) (failed : F) (host : Host)
    (end : Outcome F A × Host)
    → (file_at path end.1 ≡ file_at path host) ⊎ IsCut path failed host end
    → (file_at path end.1 ≡ file_at path host) ⊎ IsCut path (f failed) host (map_err f end.0, end.1)
raised-IsCut path f failed host end (inl same) = inl same
raised-IsCut path f failed host end (inr is_cut) = inr (record {
  part = is_cut.part;
  later = is_cut.later;
  start = is_cut.start;
  same = is_cut.same;
  next = is_cut.next;
  ends = ap (λ r. (map_err f r.0, r.1)) is_cut.ends;
})

pub raised-KeepsUnlessCut :
    {E F A : Type 0} (path : FilePath) (f : F → E) (failed : F) {m : Run Host F A}
    → KeepsUnlessCut path failed m
    → KeepsUnlessCut path (f failed) (raised f m)
raised-KeepsUnlessCut path f failed {m} keeps = record {
  same = λ host fails.
      raised-IsCut path f failed host (m host)
        (keeps.same host (λ a returned. fails a (ap (map_err f) returned)));
}

module _ {X : Type 0} (lib : TomlLib X) (path : FilePath) where
  -- A write of the file itself.
  wrote-KeepsUnlessCut :
      (disk : List Written) (contents : String) (host : Host)
      → host.disk ≡ disk
      → ((u : Unit {0}) → (wrote disk path contents host).0 ≢ ok u)
      → (file_at path (wrote disk path contents host).1 ≡ file_at path host)
        ⊎ IsCut path toml host (wrote disk path contents host)
  unfolding wrote
  wrote-KeepsUnlessCut [] contents host h fails = absurd (fails tt refl)
  wrote-KeepsUnlessCut (done ∷ later) contents host h fails = absurd (fails tt refl)
  wrote-KeepsUnlessCut (refused ∷ later) contents host h fails = inl refl
  wrote-KeepsUnlessCut (cut part ∷ later) contents host h fails =
      inr (record { part = part; later = later; start = host; same = refl; next = h; ends = refl })

  pub write_toml_struct_to_file-KeepsUnlessCut :
      (x : X) → KeepsUnlessCut path toml (write_toml_struct_to_file lib path x)
  unfolding write_toml_struct_to_file write_file
  write_toml_struct_to_file-KeepsUnlessCut x =
      bind-KeepsUnlessCut path toml (lift-Keeps path (ok_or (lib.to_string x) toml)) λ serialized.
        bind-KeepsUnlessCut path toml (lift-Keeps path (ok_or (parent path) toml)) λ _. record {
          same = λ host fails. wrote-KeepsUnlessCut host.disk serialized host refl fails;
        }

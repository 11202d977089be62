-- ===== src/TestLedger/Persisted/Refines.antt =====
-- The storage in a file does what the storage in memory does
-- (src/ledger_client/test_ledger_client/local_persisted_storage.rs).
use naumachia.Prelude.{
  ℕ, ◌≡◌, refl, sym, ap, ◌∙◌, Option-cases, inl, inr, Option, some, List, [], ◌∷◌, ◌++◌, map, All,
  All-append, Outcome, ok, map_err, Eq,
}
use naumachia.Prelude.Int.{ℤ}
use mathlib.Core.Path.{subst}
use mathlib.Core.Option
use naumachia.Address.{AddressLib}
use naumachia.Errors.{
  LedgerClientError, failed_to_retrieve_output_with_id, test_lc, duplicate_input,
  local_persisted_lc, listed_twice,
}
use naumachia.Scripts.PlutusData.{PlutusData}
use naumachia.Output.{Output, output_owner, DatumKind, datum_plutus_data, typed, untyped, no_datum}
use naumachia.TestLedger.Ledger.{◌>>=◌, >>=-of-ok, lift}
use naumachia.TestLedger.InMemory.{InMemoryStorage, take_out, in_memory}
use naumachia.TestLedger.InMemory.{
  add_output as add_in_memory, remove_output as remove_in_memory, set_current_time,
}
use naumachia.TestLedger.InMemory.Totals.{take_out-cons, take_out-nil}
use naumachia.TestLedger.Persisted.{
  LedgerData, JsonLib, ld_output, outputs_at, first_outputs_at, take_ld, taken, ok_or_bad_address,
}
use naumachia.TestLedger.Persisted.Json.{HasNoMap, HasJson, IsJson}
use naumachia.TestLedger.Persisted.File.{
  get_data, write_data, update_outputs, add_output, remove_output, update_current_time,
  persisted_signer, persisted,
}
use naumachia.TestLedger.Persisted.Stored.{
  IsTyped, stored, Filed, output_owner-Filed, ld_output-stored, outputs_at-stored,
  first_outputs_at-stored, take_ld-stored,
}

module _ {A D T : Type 0} (lib : AddressLib A) ⦃d : Eq D⦄ (into : D → PlutusData)
    (try_from : PlutusData → Option D) (json : JsonLib T) where
  -- The data of the file is that of the storage in memory.
  pub record Describes (contents : LedgerData) (m : InMemoryStorage A D) : Type 0 where
    pub signer : lib.to_bech32 m.signer ≡ some contents.active_signer
    pub outputs : contents.outputs ≡ map (λ x. stored lib into try_from x.1) m.outputs
    pub filed : All (Filed lib into try_from) m.outputs
    pub time : contents.current_time ≡ m.current_posix_time
    pub block : contents.block_length ≡ m.block_length

  -- A file stands for a storage in memory.
  pub record Refines (s : Option T) (m : InMemoryStorage A D) : Type 0 where
    pub contents : LedgerData
    pub read : get_data json s ≡ (ok contents, s)
    pub describes : Describes contents m

  -- Two calls ended alike, in states that stand for one another.
  abbrev pub Agree :
      {X : Type 0}
      → Outcome LedgerClientError X × Option T
      → Outcome LedgerClientError X × InMemoryStorage A D
      → Type 0
  Agree x y = (x.0 ≡ y.0) × Refines x.1 y.1

  -- The error of the storage in a file for one of the storage in memory: the cause of an output that is
  -- missing is of a type of its own.
  abbrev pub persisted_error : LedgerClientError → LedgerClientError
  persisted_error (failed_to_retrieve_output_with_id id (test_lc duplicate_input)) =
      failed_to_retrieve_output_with_id id (local_persisted_lc listed_twice)
  persisted_error e = e

  -- How the storage in a file ends, where the one in memory ends so.
  abbrev pub as_persisted :
      {X : Type 0}
      → Outcome LedgerClientError X × InMemoryStorage A D
      → Outcome LedgerClientError X × InMemoryStorage A D
  as_persisted (r, m) = (map_err persisted_error r, m)

  module _ (json_ok : IsJson json) (reads : (x : D) → try_from (into x) ≡ some x)
      (plain : (x : D) → HasNoMap (into x)) where
    HasJson-kind :
        (o : Output D) (k : DatumKind D)
        → IsTyped k
        → HasJson (stored lib into try_from (record o { datum = k }))
    unfolding IsTyped datum_plutus_data HasJson
    HasJson-kind o (typed x) _ = plain x
    HasJson-kind o (untyped x) bad = absurd bad
    HasJson-kind o no_datum _ = tt

    All-HasJson :
        (outputs : List (A × Output D))
        → All (Filed lib into try_from) outputs
        → All HasJson (map (λ x. stored lib into try_from x.1) outputs)
    unfolding Filed
    All-HasJson [] _ = tt
    All-HasJson ((a, o) ∷ outputs) (filed, more) =
        (HasJson-kind o o.datum filed.1, All-HasJson outputs more)

    writes :
        (contents : LedgerData) (s : Option T) (m : InMemoryStorage A D)
        → Describes contents m
        → Agree (write_data json contents s) (ok tt, m)
    unfolding write_data get_data
    writes contents s m describes =
        let (t, fits) =
          json_ok.written contents
            (subst (All HasJson) (sym describes.outputs) (All-HasJson m.outputs describes.filed)) in
        rw (write_data, fits)
          (
            refl,
            record {
              contents = contents;
              read = rw (json_ok.read contents t fits) refl;
              describes = describes;
            },
          )

    reading :
        {X : Type 0} (f : LedgerData → Outcome LedgerClientError X)
        (q : Outcome LedgerClientError X) (s : Option T) (m : InMemoryStorage A D)
        (stands : Refines s m)
        → f stands.contents ≡ q
        → Agree ((get_data json >>= λ c. lift (f c)) s) (q, m)
    reading f q s m stands same =
        subst (λ x. Agree x (q, m))
          (sym (>>=-of-ok (get_data json) (λ c. lift (f c)) s stands.read)) (same, stands)

    updating :
        (f : LedgerData → LedgerData) (s : Option T) (m m' : InMemoryStorage A D)
        (stands : Refines s m)
        → Describes (f stands.contents) m'
        → Agree ((get_data json >>= λ c. write_data json (f c)) s) (ok tt, m')
    updating f s m m' stands changed =
        subst (λ x. Agree x (ok tt, m'))
          (sym (>>=-of-ok (get_data json) (λ c. write_data json (f c)) s stands.read))
          (writes (f stands.contents) s m' changed)

    map-append :
        (xs ys : List (A × Output D))
        → map (λ x. stored lib into try_from x.1) (xs ++ ys)
          ≡ map (λ x. stored lib into try_from x.1) xs ++ map (λ x. stored lib into try_from x.1) ys
    map-append [] ys = refl
    map-append (x ∷ xs) ys = ap (λ t. stored lib into try_from x.1 ∷ t) (map-append xs ys)

    All-take_out :
        (o : Output D) (outputs left : List (A × Output D))
        → All (Filed lib into try_from) outputs
        → take_out ⦃lib = lib⦄ o outputs ≡ some left
        → All (Filed lib into try_from) left
    All-take_out o [] left filed e = absurd (cc (sym (take_out-nil ⦃lib = lib⦄ o) ∙ e))
    All-take_out o ((a, x) ∷ outputs) left (filed, more) e =
        elim (take_out-cons ⦃lib = lib⦄ o x a outputs left e) [
          | inl (_, here) ↦ rw (← here) more
          | inr (l, found, there) ↦ rw (← there) (filed, All-take_out o outputs l more found)
        ]

    add_output-writes :
        (s : Option T) (m : InMemoryStorage A D) (stands : Refines s m) (a : A) (o : Output D)
        → Filed lib into try_from (a, o)
        → add_output lib json into o s
          ≡ update_outputs json (stands.contents.outputs ++ stored lib into try_from o ∷ []) s
    unfolding add_output
    add_output-writes s m stands a o filed =
        let sanitized = stored lib into try_from o in
        >>=-of-ok (lift (ld_output lib into o))
          (λ x. get_data json >>= λ c. update_outputs json (c.outputs ++ x ∷ [])) s
          (ap (λ r. (r, s)) (ld_output-stored lib into try_from reads LedgerClientError a o filed))
        ∙ >>=-of-ok (get_data json) (λ c. update_outputs json (c.outputs ++ sanitized ∷ [])) s
            stands.read

    add_in_memory-files :
        (m : InMemoryStorage A D) (a : A) (o : Output D)
        → Filed lib into try_from (a, o)
        → add_in_memory ⦃lib = lib⦄ o m ≡ (ok tt, record m { outputs = m.outputs ++ (a, o) ∷ [] })
    unfolding add_in_memory
    add_in_memory-files m a o filed =
        >>=-of-ok (lift (output_owner ⦃lib = lib⦄ o))
          (λ owner s. (ok tt, record s { outputs = s.outputs ++ (owner, o) ∷ [] })) m
          (ap (λ r. (r, m))
            (output_owner-Filed lib into try_from reads LedgerClientError a o filed))

    -- New outputs that are written stand for the storage in memory with them.
    update_outputs-agrees :
        (s : Option T) (m : InMemoryStorage A D) (stands : Refines s m)
        (outputs : List (A × Output D))
        → All (Filed lib into try_from) outputs
        → Agree
            (update_outputs json (map (λ x. stored lib into try_from x.1) outputs) s)
            (ok tt, record m { outputs = outputs })
    unfolding update_outputs
    update_outputs-agrees s m stands outputs filed =
        updating (λ c. record c { outputs = map (λ x. stored lib into try_from x.1) outputs }) s m
          (record m { outputs = outputs }) stands
          (record {
            signer = stands.describes.signer;
            outputs = refl;
            filed = filed;
            time = stands.describes.time;
            block = stands.describes.block;
          })

    add_output-agrees :
        (s : Option T) (m : InMemoryStorage A D) (stands : Refines s m) (a : A) (o : Output D)
        → Filed lib into try_from (a, o)
        → Agree (add_output lib json into o s) (add_in_memory ⦃lib = lib⦄ o m)
    add_output-agrees s m stands a o filed =
        let outputs = m.outputs ++ (a, o) ∷ [] in
        let whole =
          All-append (Filed lib into try_from) m.outputs ((a, o) ∷ []) stands.describes.filed
            (filed, tt) in
        let same =
          ap (λ t. t ++ stored lib into try_from o ∷ []) stands.describes.outputs
          ∙ sym (map-append m.outputs ((a, o) ∷ [])) in
        rw (add_output-writes s m stands a o filed, same, add_in_memory-files m a o filed)
          (update_outputs-agrees s m stands outputs whole)

    remove_output-searches :
        (s : Option T) (m : InMemoryStorage A D) (stands : Refines s m) (a : A) (o : Output D)
        → Filed lib into try_from (a, o)
        → remove_output lib json into o s
          ≡ (lift (
                  taken o.id (
                    Option.map
                      (λ left. map (λ x. stored lib into try_from x.1) left)
                      (take_out ⦃lib = lib⦄ o m.outputs)))
                >>= update_outputs json)
              s
    unfolding remove_output Filed
    remove_output-searches s m stands a o filed =
        let taking =
          ap (take_ld (stored lib into try_from o)) stands.describes.outputs
          ∙ take_ld-stored lib into try_from reads o m.outputs filed.1 stands.describes.filed in
        >>=-of-ok (get_data json)
          (λ c. lift (ld_output lib into o) >>= λ x.
            lift (taken o.id (take_ld x c.outputs)) >>= update_outputs json)
          s stands.read
        ∙ >>=-of-ok (lift (ld_output lib into o))
            (λ x. lift (taken o.id (take_ld x stands.contents.outputs)) >>= update_outputs json) s
            (ap (λ r. (r, s))
              (ld_output-stored lib into try_from reads LedgerClientError a o filed))
        ∙ ap (λ found. (lift (taken o.id found) >>= update_outputs json) s) taking

    remove_output-agrees :
        (s : Option T) (m : InMemoryStorage A D) (stands : Refines s m) (a : A) (o : Output D)
        → Filed lib into try_from (a, o)
        → Agree (remove_output lib json into o s) (as_persisted (remove_in_memory ⦃lib = lib⦄ o m))
    unfolding remove_in_memory
    remove_output-agrees s m stands a o filed =
        elim (Option-cases (take_out ⦃lib = lib⦄ o m.outputs)) [
          | inl missing ↦
              rw (remove_output-searches s m stands a o filed, remove_in_memory, missing)
                (refl, stands)
          | inr (left, found) ↦
              rw (remove_output-searches s m stands a o filed, remove_in_memory, found)
                (update_outputs-agrees s m stands left
                  (All-take_out o m.outputs left stands.describes.filed found))
        ]

    -- For a type of datums that have JSON and that can be read back from their data, the storage in a
    -- file implements the one in memory: while the file describes the storage in memory, each of the nine
    -- calls of the one ends like the same call of the other, and leaves a file that describes what the
    -- other leaves. Errors are the same, but for the cause of an output that is not there to be removed,
    -- which each storage has a type of its own for. The output that is added or removed has a typed datum
    -- or none, and its owner's own bech32 form.
    pub persisted-in_memory :
        (s : Option T) (m : InMemoryStorage A D)
        → Refines s m
        → (a : A) (o : Output D) → Filed lib into try_from (a, o)
        → (address : A) (count : ℕ) (time : ℤ)
        → Agree
            ((persisted lib json into try_from).signer s)
            ((in_memory ⦃lib = lib⦄ ⦃d = d⦄).signer m)
          × Agree
              ((persisted lib json into try_from).outputs_by_count address count s)
              ((in_memory ⦃lib = lib⦄ ⦃d = d⦄).outputs_by_count address count m)
          × Agree
              ((persisted lib json into try_from).all_outputs address s)
              ((in_memory ⦃lib = lib⦄ ⦃d = d⦄).all_outputs address m)
          × Agree
              ((persisted lib json into try_from).remove_output o s)
              (as_persisted ((in_memory ⦃lib = lib⦄ ⦃d = d⦄).remove_output o m))
          × Agree
              ((persisted lib json into try_from).add_output o s)
              ((in_memory ⦃lib = lib⦄ ⦃d = d⦄).add_output o m)
          × Agree
              ((persisted lib json into try_from).current_time s)
              ((in_memory ⦃lib = lib⦄ ⦃d = d⦄).current_time m)
          × Agree
              ((persisted lib json into try_from).set_current_time time s)
              ((in_memory ⦃lib = lib⦄ ⦃d = d⦄).set_current_time time m)
          × Agree
              ((persisted lib json into try_from).get_block_length s)
              ((in_memory ⦃lib = lib⦄ ⦃d = d⦄).get_block_length m)
          × Agree
              ((persisted lib json into try_from).network s)
              ((in_memory ⦃lib = lib⦄ ⦃d = d⦄).network m)
    unfolding persisted persisted_signer update_current_time set_current_time
    persisted-in_memory s m stands a o filed address count time = (
      reading (λ c. ok_or_bad_address (lib.from_bech32 c.active_signer)) (ok m.signer) s m stands
          (ap ok_or_bad_address
            (lib.decode-encode m.signer stands.contents.active_signer stands.describes.signer)),
      reading (λ c. first_outputs_at lib try_from address count c.outputs) _ s m stands
          (ap (λ t. first_outputs_at lib try_from address count t) stands.describes.outputs
            ∙ first_outputs_at-stored lib into try_from reads LedgerClientError address count
                m.outputs stands.describes.filed),
      reading (λ c. outputs_at lib try_from address c.outputs) _ s m stands
          (ap (λ t. outputs_at lib try_from address t) stands.describes.outputs
            ∙ outputs_at-stored lib into try_from reads LedgerClientError address m.outputs
                stands.describes.filed),
      remove_output-agrees s m stands a o filed,
      add_output-agrees s m stands a o filed,
      reading (λ c. ok c.current_time) (ok m.current_posix_time) s m stands
          (ap (λ t. ok t) stands.describes.time),
      updating (λ c. record c { current_time = time }) s m (record m { current_posix_time = time })
          stands
          (record {
            signer = stands.describes.signer;
            outputs = stands.describes.outputs;
            filed = stands.describes.filed;
            time = refl;
            block = stands.describes.block;
          }),
      reading (λ c. ok c.block_length) (ok m.block_length) s m stands
          (ap (λ t. ok t) stands.describes.block),
      (refl, stands),
    )

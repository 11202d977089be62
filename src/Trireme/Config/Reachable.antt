-- ===== src/Trireme/Config/Reachable.antt =====
-- What holds of every configuration that the operations lead to (src/trireme_ledger_client.rs).
use naumachia.Prelude.{
  ◌≡◌, refl, ◌∙◌, sym, arith, true, false, Bool-cases, inl, inr, ◌||◌, ◌==◌, string_eq,
  if◌then◌else◌, Option, none, some, List, [], ◌∷◌, ◌++◌, String, ok, err, ok-inj, some-inj,
}
use naumachia.Errors.{trireme}
use naumachia.Trireme.Config.{
  TriremeConfig, contains, without, new, set_new_env, switch_env, current_without, remove_env,
}

-- No name is listed twice.
unfoldable pub IsDistinct : List String → Type 0
unfolding contains
IsDistinct [] = Unit {0}
IsDistinct (env ∷ envs) = (contains envs env ≡ false) × IsDistinct envs

-- Names are listed once, and the current environment is listed.
pub record IsValid (config : TriremeConfig) : Type 0 where
  pub distinct : IsDistinct config.envs
  pub current : (env : String) → config.current_env ≡ some env → contains config.envs env ≡ true

-- One operation that returned.
pub data Step (config config' : TriremeConfig) : Type 0 where
  added : (name : String) → set_new_env config name ≡ ok config' → Step config config'
  switched : (name : String) → switch_env config name ≡ ok config' → Step config config'
  removed : (name : String) → remove_env config name ≡ ok config' → Step config config'

-- What a new configuration leads to.
pub data Reachable : TriremeConfig → Type 0 where
  start : (name : String) → Reachable (new name)
  next :
      {config config' : TriremeConfig} → Reachable config → Step config config' → Reachable config'

contains-append :
    (envs : List String) (name env : String)
    → contains (envs ++ name ∷ []) env ≡ (contains envs env || (name == env))
unfolding contains
contains-append [] name env = ground arith
contains-append (x ∷ envs) name env = ground (arith, contains-append envs name env)

contains-without :
    (envs : List String) (name env : String)
    → contains (without envs name) env ≡ (if name == env then false else contains envs env)
unfolding contains without
contains-without [] name env = ground arith
contains-without (x ∷ envs) name env = ground (
  arith,
  contains-without envs name env,
  string_eq.beq_iff x name,
  string_eq.beq_iff name env,
  string_eq.beq_iff x env,
)

IsDistinct-append :
    (envs : List String) (name : String)
    → contains envs name ≡ false
    → IsDistinct envs
    → IsDistinct (envs ++ name ∷ [])
unfolding IsDistinct contains
IsDistinct-append [] name h d = (refl, tt)
IsDistinct-append (x ∷ envs) name h d = (
  ground
      (arith, contains-append envs name x, string_eq.beq_iff name x, string_eq.beq_iff x name, d.0),
  IsDistinct-append envs name (ground arith) d.1,
)

IsDistinct-without :
    (envs : List String) (name : String) → IsDistinct envs → IsDistinct (without envs name)
unfolding IsDistinct without
IsDistinct-without [] name d = tt
IsDistinct-without (x ∷ envs) name d = elim (Bool-cases (x == name)) [
  | inl same ↦ rw same (IsDistinct-without envs name d.1)
  | inr differs ↦
      rw differs
        (ground (arith, contains-without envs name x, d.0), IsDistinct-without envs name d.1)
]

without-absent :
    (envs : List String) (name : String) → contains envs name ≡ false → without envs name ≡ envs
unfolding contains without
without-absent [] name h = refl
without-absent (x ∷ envs) name h = ground (arith, without-absent envs name)

without-append :
    (envs : List String) (name : String)
    → contains envs name ≡ false
    → without (envs ++ name ∷ []) name ≡ envs
unfolding contains without
without-append [] name h = ground (arith, string_eq.beq_iff name name)
without-append (x ∷ envs) name h = ground (arith, without-append envs name)

set_new_env-IsValid :
    (config config' : TriremeConfig) (name : String)
    → IsValid config
    → set_new_env config name ≡ ok config'
    → IsValid config'
unfolding set_new_env
set_new_env-IsValid config config' name v h = elim (Bool-cases (contains config.envs name)) [
  | inl known ↦ absurd (cc (rw (set_new_env, known) at h))
  | inr fresh ↦
      let e = ok-inj (rw (set_new_env, fresh) at h) in
      rw (sym e) (record {
        distinct = IsDistinct-append config.envs name fresh v.distinct;
        current = λ env c.
            ground
              (arith, contains-append config.envs name env, string_eq.beq_iff name env, some-inj c);
      })
]

switch_env-IsValid :
    (config config' : TriremeConfig) (name : String)
    → IsValid config
    → switch_env config name ≡ ok config'
    → IsValid config'
unfolding switch_env
switch_env-IsValid config config' name v h = elim (Bool-cases (contains config.envs name)) [
  | inl known ↦
      let e = ok-inj (rw (switch_env, known) at h) in
      rw (sym e) (record { distinct = v.distinct; current = λ env c. rw (sym (some-inj c)) known })
  | inr absent ↦ absurd (cc (rw (switch_env, absent) at h))
]

current_without-some :
    (current : Option String) (name env : String)
    → current_without current name ≡ some env
    → (current ≡ some env) × ((name == env) ≡ false)
unfolding current_without
current_without-some none name env h = cc
current_without-some (some x) name env h =
    ground (arith, string_eq.beq_iff x name, string_eq.beq_iff name env, string_eq.beq_iff x env)

remove_env-IsValid :
    (config config' : TriremeConfig) (name : String)
    → IsValid config
    → remove_env config name ≡ ok config'
    → IsValid config'
unfolding remove_env
remove_env-IsValid config config' name v h = elim (Bool-cases (contains config.envs name)) [
  | inl known ↦
      let e = ok-inj (rw (remove_env, known) at h) in
      rw (sym e) (record {
        distinct = IsDistinct-without config.envs name v.distinct;
        current = λ env c.
            let (was, other) = current_without-some config.current_env name env c in
            contains-without config.envs name env ∙ rw other (v.current env was);
      })
  | inr absent ↦ absurd (cc (rw (remove_env, absent) at h))
]

Step-IsValid :
    {config config' : TriremeConfig} → Step config config' → IsValid config → IsValid config'
Step-IsValid {config} {config'} (added name h) v = set_new_env-IsValid config config' name v h
Step-IsValid {config} {config'} (switched name h) v = switch_env-IsValid config config' name v h
Step-IsValid {config} {config'} (removed name h) v = remove_env-IsValid config config' name v h

new-IsValid : (name : String) → IsValid (new name)
unfolding new IsDistinct contains
new-IsValid name = record {
  distinct = (refl, tt);
  current = λ env c. ground (arith, string_eq.beq_iff name env, some-inj c);
}

-- Of every configuration that creating, adding, switching and removing lead to: no environment is
-- listed twice, and the current environment, if there is one, is listed.
pub Reachable-IsValid : (config : TriremeConfig) → Reachable config → IsValid config
Reachable-IsValid config (start name) = new-IsValid name
Reachable-IsValid config (next r st) = Step-IsValid st (Reachable-IsValid _ r)

contains-added :
    (envs : List String) (name : String)
    → contains envs name ≡ false
    → contains (envs ++ name ∷ []) name ≡ true
contains-added envs name fresh =
    ground (arith, contains-append envs name name, string_eq.beq_iff name name)

-- An environment that was added is the current one and can be removed, which leaves the
-- environments as they were and no current one; adding it again is refused in between.
pub set_new_env-remove_env :
    (config config' : TriremeConfig) (name : String)
    → set_new_env config name ≡ ok config'
    → (config'.current_env ≡ some name)
      × (remove_env config' name ≡ ok (record { current_env = none; envs = config.envs }))
      × (set_new_env config' name ≡ err trireme)
unfolding set_new_env remove_env current_without
set_new_env-remove_env config config' name h = elim (Bool-cases (contains config.envs name)) [
  | inl known ↦ absurd (cc (rw (set_new_env, known) at h))
  | inr fresh ↦
      let e = ok-inj (rw (set_new_env, fresh) at h) in
      let listed = contains-added config.envs name fresh in
      rw (sym e) (
        refl,
        rw (remove_env, listed, without-append config.envs name fresh)
            (rw ((string_eq.beq_iff name name).1 refl) refl),
        rw (set_new_env, listed) refl,
      )
]

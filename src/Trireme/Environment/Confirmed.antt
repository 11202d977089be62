-- ===== src/Trireme/Environment/Confirmed.antt =====
-- The loop that asks for a password's confirmation (trireme/src/environment.rs).
use naumachia.Prelude.{
  ◌≡◌, refl, ap, ◌∙◌, true, false, Bool-cases, inl, inr, ◌==◌, ◌≢◌, ==-refl, string_eq, arith, List,
  [], ◌∷◌, ◌++◌, map, All, String, Outcome, ok, err, panic,
}
use naumachia.Trireme.Host.{Host, Answer, text, number, choice, typed, ask_text}
use naumachia.Trireme.Environment.{CliError, terminal}
use naumachia.Trireme.Environment.Setup.{confirmed, ask_until_confirmed, get_confirmed_password}

-- No answer is asked for where the one at hand is the password.
confirmed-same :
    (password : String) (rest : List Answer) → confirmed password password rest ≡ (ok tt, rest)
unfolding confirmed
confirmed-same password [] = rw (==-refl ⦃e = string_eq⦄ password) refl
confirmed-same password (text line ∷ rest) = rw (==-refl ⦃e = string_eq⦄ password) refl
confirmed-same password (number n ∷ rest) = rw (==-refl ⦃e = string_eq⦄ password) refl
confirmed-same password (choice n ∷ rest) = rw (==-refl ⦃e = string_eq⦄ password) refl

-- The loop drops the answers that are not the password, and the one that is.
confirmed-tries :
    (password first : String) (tries : List String) (rest : List Answer)
    → password ≢ first
    → password ≢ ""
    → All (λ line. password ≢ line) tries
    → confirmed password first (map text tries ++ text password ∷ rest) ≡ (ok tt, rest)
unfolding confirmed
confirmed-tries password first [] rest differs some_text none_is = ground (
  arith,
  string_eq.beq_iff password first,
  string_eq.beq_iff password "",
  confirmed-same password rest,
)
confirmed-tries password first (line ∷ tries) rest differs some_text none_is = ground (
  arith,
  string_eq.beq_iff password first,
  confirmed-tries password first tries rest differs some_text none_is.1,
  confirmed-tries password line tries rest none_is.0 some_text none_is.1,
)

-- What the call makes of the end of the loop.
abbrev answered :
    String → Host → Outcome CliError (Unit {0}) × List Answer → Outcome CliError String × Host
answered password host (r, rest) = elim r [
  | ok _ ↦ (ok password, record host { answers = rest })
  | err e ↦ (err e, record host { answers = rest })
  | panic ↦ (panic, record host { answers = rest })
]

-- What the call makes of the first confirmation, and of the password.
abbrev confirming :
    String → Host → Outcome CliError String × List Answer → Outcome CliError String × Host
confirming password host (r, rest) = elim r [
  | ok line ↦ answered password host (confirmed password line rest)
  | err e ↦ (err e, record host { answers = rest })
  | panic ↦ (panic, record host { answers = rest })
]

abbrev asking : Host → Outcome CliError String × List Answer → Outcome CliError String × Host
asking host (r, rest) = elim r [
  | ok password ↦ confirming password host (typed terminal rest)
  | err e ↦ (err e, record host { answers = rest })
  | panic ↦ (panic, record host { answers = rest })
]

typed-text :
    (line : String) (rest : List Answer)
    → (line == "") ≡ false
    → typed terminal (text line ∷ rest) ≡ (ok line, rest)
unfolding typed
typed-text line rest other = rw other refl

typed-again :
    (line : String) (rest : List Answer)
    → (line == "") ≡ true
    → typed terminal (text line ∷ rest) ≡ typed terminal rest
unfolding typed
typed-again line rest empty = rw empty refl

is_some_text : (line : String) → line ≢ "" → (line == "") ≡ false
is_some_text line some_text = ground (arith, string_eq.beq_iff line "")

confirming-ends :
    (password : String) (tries : List String) (rest : List Answer) (host : Host)
    → password ≢ ""
    → All (λ line. password ≢ line) tries
    → confirming password host (typed terminal (map text tries ++ text password ∷ rest))
      ≡ (ok password, record host { answers = rest })
confirming-ends password [] rest host some_text none_is =
    ap (confirming password host) (typed-text password rest (is_some_text password some_text))
    ∙ ap (answered password host) (confirmed-same password rest)
confirming-ends password (line ∷ tries) rest host some_text none_is =
    let later = map text tries ++ text password ∷ rest in
    elim (Bool-cases (line == "")) [
      | inl empty ↦
          ap (confirming password host) (typed-again line later empty)
          ∙ confirming-ends password tries rest host some_text none_is.1
      | inr other ↦
          ap (confirming password host) (typed-text line later other)
          ∙ ap (answered password host)
              (confirmed-tries password line tries rest none_is.0 some_text none_is.1)
    ]

-- A user who types a password, which is no empty line, and then any number of lines that are not it,
-- empty lines among them, and then the password again is asked that often, and no more: the call
-- returns the password, with the later answers unread.
pub get_confirmed_password-ends :
    (password : String) (tries : List String) (rest : List Answer) (host : Host)
    → password ≢ ""
    → All (λ line. password ≢ line) tries
    → get_confirmed_password
        (record host { answers = text password ∷ (map text tries ++ text password ∷ rest) })
      ≡ (ok password, record host { answers = rest })
unfolding get_confirmed_password ask_text ask_until_confirmed
get_confirmed_password-ends password tries rest host some_text none_is =
    ap (asking host) (
      typed-text password (map text tries ++ text password ∷ rest)
        (is_some_text password some_text))
    ∙ confirming-ends password tries rest host some_text none_is

-- ===== src/Effects.antt =====
-- Calls with a state, which end in one of several errors: what an `async` function of a smart
-- contract does with a ledger client.
use naumachia.Prelude.{
  err-inj, ◌⊎◌, inl, inr, Outcome, ok, err, panic, map_err, map_err-ok, ◌≡◌, refl, ap,
}
use naumachia.Errors.{LedgerClientError}

abbrev pub Run : Type 0 → Type 0 → Type 0 → Type 0
Run S E A = S → Outcome E A × S

module _ {S E : Type 0} where
  infixl 5 ◌>>=◌ ◌>>◌
  abbrev pub ◌>>=◌ : {A B : Type 0} → Run S E A → (A → Run S E B) → Run S E B
  ◌>>=◌ m f s =
      let (r, s') = m s in elim r [ ok a ↦ f a s' | err e ↦ (err e, s') | panic ↦ (panic, s') ]

  abbrev pub ◌>>◌ : {A B : Type 0} → Run S E A → Run S E B → Run S E B
  m >> k = m >>= λ _. k

  -- A computation that leaves the state alone.
  abbrev pub lift : {A : Type 0} → Outcome E A → Run S E A
  lift r s = (r, s)

  abbrev pub return : {A : Type 0} → A → Run S E A
  return a s = (ok a, s)

  -- A call of the ledger client, with what is made of its error.
  abbrev pub call : {A : Type 0} → (LedgerClientError → E) → Run S LedgerClientError A → Run S E A
  call f m s = let (r, s') = m s in (map_err f r, s')

  -- A call that can end in errors of another type, with what is made of them.
  abbrev pub raised : {A F : Type 0} → (F → E) → Run S F A → Run S E A
  raised f m s = let (r, s') = m s in (map_err f r, s')

  -- What a bind does, by how its first call ended.
  >>=-at :
      {A B : Type 0} (r : Outcome E A) (u : S) (f : A → Run S E B) {b : B} {t : S}
      → (elim r [ ok a ↦ f a u | err e ↦ (err e, u) | panic ↦ (panic, u) ]) ≡ (ok b, t)
      → (a : A) × (r ≡ ok a) × (f a u ≡ (ok b, t))
  >>=-at (ok a) u f h = (a, refl, h)
  >>=-at (err e) u f h = absurd (cc (ap (λ x. x.0) h))
  >>=-at panic u f h = absurd (cc (ap (λ x. x.0) h))

  -- Inversion of a bind that returned: the first call returned, and the rest from there.
  pub >>=-eq-ok :
      {A B : Type 0} (m : Run S E A) (f : A → Run S E B) (s : S) {b : B} {t : S}
      → (m >>= f) s ≡ (ok b, t)
      → (a : A) × ((m s).0 ≡ ok a) × (f a (m s).1 ≡ (ok b, t))
  >>=-eq-ok m f s h = >>=-at (m s).0 (m s).1 f h

  -- Inversion of a bind that failed: the first call failed, or the rest did.
  >>=-at-err :
      {A B : Type 0} (r : Outcome E A) (u : S) (f : A → Run S E B) {x : E} {t : S}
      → (elim r [ ok a ↦ f a u | err e ↦ (err e, u) | panic ↦ (panic, u) ]) ≡ (err x, t)
      → ((r ≡ err x) × (u ≡ t)) ⊎ ((a : A) × (r ≡ ok a) × (f a u ≡ (err x, t)))
  >>=-at-err (ok a) u f h = inr (a, refl, h)
  >>=-at-err (err e) u f h = inl (ap err (err-inj (ap (λ x. x.0) h)), ap (λ x. x.1) h)
  >>=-at-err panic u f h = absurd (cc (ap (λ x. x.0) h))

  pub >>=-eq-err :
      {A B : Type 0} (m : Run S E A) (f : A → Run S E B) (s : S) {x : E} {t : S}
      → (m >>= f) s ≡ (err x, t)
      → (((m s).0 ≡ err x) × ((m s).1 ≡ t))
        ⊎ ((a : A) × ((m s).0 ≡ ok a) × (f a (m s).1 ≡ (err x, t)))
  >>=-eq-err m f s h = >>=-at-err (m s).0 (m s).1 f h

  -- A bind whose first call failed.
  pub >>=-of-err :
      {A B : Type 0} (m : Run S E A) (f : A → Run S E B) (s : S) {x : E} {t : S}
      → m s ≡ (err x, t)
      → (m >>= f) s ≡ (err x, t)
  >>=-of-err m f s {x = x} h = rw (◌>>=◌, h) (ap (λ u. (err x, u)) (ap (λ r. r.1) h))

  -- A bind whose first call returned.
  pub >>=-of-ok :
      {A B : Type 0} (m : Run S E A) (f : A → Run S E B) (s : S) {a : A} {t : S}
      → m s ≡ (ok a, t)
      → (m >>= f) s ≡ f a t
  >>=-of-ok m f s h =
      ap (λ p. elim p.0 [ ok a ↦ f a p.1 | err e ↦ (err e, p.1) | panic ↦ (panic, p.1) ]) h

  -- A call of the client that returned.
  pub call-eq-ok :
      {A : Type 0} (f : LedgerClientError → E) (m : Run S LedgerClientError A) (s : S) (a : A)
      → (call f m s).0 ≡ ok a
      → (m s).0 ≡ ok a
  call-eq-ok f m s a h = map_err-ok f (m s).0 a h

  pub call-of-ok :
      {A : Type 0} (f : LedgerClientError → E) (m : Run S LedgerClientError A) (s : S) {a : A}
      {t : S}
      → m s ≡ (ok a, t)
      → call f m s ≡ (ok a, t)
  call-of-ok f m s h = ap (λ p. (map_err f p.0, p.1)) h

  pub raised-eq-ok :
      {A F : Type 0} (f : F → E) (m : Run S F A) (s : S) {a : A}
      → (raised f m s).0 ≡ ok a
      → (m s).0 ≡ ok a
  raised-eq-ok f m s {a} h = map_err-ok f (m s).0 a h

  pub raised-of-ok :
      {A F : Type 0} (f : F → E) (m : Run S F A) (s : S) {a : A} {t : S}
      → raised f m s ≡ (ok a, t)
      → m s ≡ (ok a, t)
  raised-of-ok f m s {a} h =
      let p = map_err-ok f (m s).0 a (ap (λ x. x.0) h) in λ i. (p i, (ap (λ x. x.1) h) i)

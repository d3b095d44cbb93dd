-- ===== src/Server/Io.antt =====
-- Asynchronous code of packages/backend/src that may throw: it passes on a state, and ends with a
-- value or with the message of an error.
use taop_protocol.Prelude.{Text, ◌≡◌, refl, ap}
use taop_protocol.Indexer.{Result, ok, err}

abbrev pub Io : Type 0 → Type 0 → Type 0
Io S A = S → Result A × S

module _ {S : Type 0} where
  infixl 5 ◌>>=◌ ◌>>◌
  abbrev pub then_run : {A B : Type 0} → (A → Io S B) → Result A × S → Result B × S
  then_run f (ok a, s) = f a s
  then_run f (err e, s) = (err e, s)

  abbrev pub ◌>>=◌ : {A B : Type 0} → Io S A → (A → Io S B) → Io S B
  (m >>= f) s = then_run f (m s)

  abbrev pub ◌>>◌ : {A B : Type 0} → Io S A → Io S B → Io S B
  m >> k = m >>= λ _. k

  abbrev pub return : {A : Type 0} → A → Io S A
  return a s = (ok a, s)

  abbrev pub throw : {A : Type 0} → Text → Io S A
  throw e s = (err e, s)

  -- Code that reads or writes the state and does not throw.
  abbrev pub write : (S → S) → Io S (Unit {0})
  write f s = (ok tt, f s)

  abbrev pub read : {A : Type 0} → (S → A) → Io S A
  read f s = (ok (f s), s)

  abbrev pub caught : {A : Type 0} → (Text → Io S A) → Result A × S → Result A × S
  caught handler (ok a, s) = (ok a, s)
  caught handler (err e, s) = handler e s

  -- try { … } catch (e) { … }
  abbrev pub try_catch : {A : Type 0} → Io S A → (Text → Io S A) → Io S A
  try_catch m handler s = caught handler (m s)

  then_run-ok :
      {A B : Type 0} (f : A → Io S B) (r : Result A × S) {b : B} {t : S}
      → then_run f r ≡ (ok b, t)
      → (a : A) × (s : S) × (r ≡ (ok a, s)) × (f a s ≡ (ok b, t))
  then_run-ok f (ok a, s) h = (a, s, refl, h)
  then_run-ok f (err e, s) h = absurd (cc)

  -- Inversion of a run that ends with a value.
  pub >>=-ok :
      {A B : Type 0} (m : Io S A) (f : A → Io S B) (s : S) {b : B} {t : S}
      → (m >>= f) s ≡ (ok b, t)
      → (a : A) × (s' : S) × (m s ≡ (ok a, s')) × (f a s' ≡ (ok b, t))
  >>=-ok m f s h = then_run-ok f (m s) h

  pub >>=-step :
      {A B : Type 0} (m : Io S A) (f : A → Io S B) (s : S) {a : A} {s' : S}
      → m s ≡ (ok a, s')
      → (m >>= f) s ≡ f a s'
  >>=-step m f s e = ap (then_run f) e

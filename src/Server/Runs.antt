-- ===== src/Server/Runs.antt =====
-- What asynchronous code of packages/backend/src gives where it does not throw.
use taop_protocol.Prelude.{◌≡◌, refl, subst}
use taop_protocol.Indexer.{Result, ok, err}
use taop_protocol.Server.Io.{Io, ◌>>=◌, then_run}

-- A run that ends with a value meets P.
abbrev pub Gives : {S A : Type 0} → (A → S → Type 0) → Result A × S → Type 0
Gives P (ok a, s) = P a s
Gives P (err e, s) = Unit

module _ {S : Type 0} where
  run-Gives :
      {A B : Type 0} (f : A → Io S B) (P : B → S → Type 0) (r : Result A × S)
      → ((a : A) (s : S) → r ≡ (ok a, s) → Gives P (f a s))
      → Gives P (then_run f r)
  run-Gives f P (ok a, s) h = h a s refl
  run-Gives f P (err e, s) h = tt

  pub bind-Gives :
      {A B : Type 0} (m : Io S A) (f : A → Io S B) (P : B → S → Type 0) (s : S)
      → ((a : A) (t : S) → m s ≡ (ok a, t) → Gives P (f a t))
      → Gives P ((m >>= f) s)
  bind-Gives m f P s h = run-Gives f P (m s) h

  pub Gives-map :
      {A : Type 0} (P Q : A → S → Type 0) (r : Result A × S)
      → ((a : A) (s : S) → P a s → Q a s)
      → Gives P r
      → Gives Q r
  Gives-map P Q (ok a, s) h k = h a s k
  Gives-map P Q (err e, s) h k = tt

  -- The promise of a run that is known to end with a value.
  pub Gives-ok :
      {A : Type 0} (P : A → S → Type 0) (r : Result A × S) {a : A} {t : S}
      → Gives P r
      → r ≡ (ok a, t)
      → P a t
  Gives-ok P r h e = subst (Gives P) e h

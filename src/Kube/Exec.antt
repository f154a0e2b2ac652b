-- ===== src/Kube/Exec.antt =====
-- Methods that mutate the object in memory and the world, and may return an error. What was
-- changed before an error stays changed, so object and world come back beside it.
use mongodb_operator.Common.{Option, none, some}
use mongodb_operator.Kube.{ApiError, Error, Outcome, ok, err, api}

abbrev pub Exec : Type 0 → Type 0 → Type 0 → Type 0
Exec O W A = O → W → Outcome A × O × W

-- The result of a call that returns only an error.
abbrev pub or_error {ℓ} : {A : Type ℓ} → Option ApiError → A → Outcome A
or_error none a = ok a
or_error (some e) a = err (api e)

abbrev pub wrap_error {ℓ} : {A : Type ℓ} → Outcome A → Error → Outcome A
wrap_error (ok a) e = ok a
wrap_error (err _) e = err e

module _ {O W A : Type 0} where
  abbrev pub pure : A → Exec O W A
  pure a o w = (ok a, o, w)

  abbrev pub raise : Error → Exec O W A
  raise e o w = (err e, o, w)

module _ {O W A B : Type 0} where
  abbrev pub resume : Outcome A → (A → Exec O W B) → Exec O W B
  resume (ok a) f o w = f a o w
  resume (err e) f o w = (err e, o, w)

  infixl 5 ◌>>=◌ ◌>>◌
  abbrev pub ◌>>=◌ : Exec O W A → (A → Exec O W B) → Exec O W B
  ◌>>=◌ m f o w = let (r, o', w') = m o w in resume r f o' w'

  abbrev pub ◌>>◌ : Exec O W A → Exec O W B → Exec O W B
  m >> n = m >>= λ _. n

-- ===== src/Exec.antt =====
-- Go functions that return an error and change state: the state comes back beside every result.
-- A panic (a nil dereference, an index or a capacity out of range) is a result of its own.
pub mod Ensures
pub mod Keeps
pub mod Returns
pub mod GoesOn
use rebost.Prelude.{◌≡◌, refl, ◌⊎◌, inl, inr, String, ◌<>◌, ◌==◌, Option, none, some, if◌then◌else◌}

-- An error is its text: the program compares errors by `err.Error()`.
abbrev pub Error : Type 0
Error = String

pub data Result {ℓ} (A : Type ℓ) : Type ℓ where
  ok : A → Result A
  err : Error → Result A
  panic : Result A

abbrev pub not_found : Error
not_found = "not found"

abbrev pub Exec : Type 0 → Type 0 → Type 0
Exec S A = S → Result A × S

-- `if err != nil && err.Error() != "not found" { return err }`: the value is nil on "not found".
abbrev pub allow_missing : {A : Type 0} → Result A → Result (Option A)
allow_missing (ok a) = ok (some a)
allow_missing (err e) = if e == not_found then ok none else err e
allow_missing panic = panic

-- To split on a result and keep the equation.
pub Result-cases :
    {A : Type 0} (r : Result A) → ((a : A) × (r ≡ ok a)) ⊎ ((e : Error) × (r ≡ err e)) ⊎ (r ≡ panic)
Result-cases (ok a) = inl (a, refl)
Result-cases (err e) = inr (inl (e, refl))
Result-cases panic = inr (inr refl)

-- `fmt.Errorf("…: %s", err)`
abbrev pub prefixed : {A : Type 0} → String → Result A → Result A
prefixed what (ok a) = ok a
prefixed what (err e) = err (what <> e)
prefixed what panic = panic

-- The result of a call that returns only an error.
abbrev pub of_error : Option Error → Result (Unit {0})
of_error none = ok tt
of_error (some e) = err e

module _ {S A : Type 0} where
  abbrev pub pure : A → Exec S A
  pure a s = (ok a, s)

  abbrev pub raise : Error → Exec S A
  raise e s = (err e, s)

  abbrev pub crash : Exec S A
  crash s = (panic, s)

  abbrev pub optional : Exec S A → Exec S (Option A)
  optional m s = let (r, s') = m s in (allow_missing r, s')

  -- Give up on an error, and go on from a nil one.
  abbrev pub check : Result A → Exec S A
  check r s = (r, s)

module _ {S A B : Type 0} where
  abbrev pub continue : Result A → (A → Exec S B) → Exec S B
  continue (ok a) f s = f a s
  continue (err e) f s = (err e, s)
  continue panic f s = (panic, s)

  infixl 10 ◌>>=◌ ◌>>◌
  abbrev pub ◌>>=◌ : Exec S A → (A → Exec S B) → Exec S B
  ◌>>=◌ m f s = let (r, s') = m s in continue r f s'

  abbrev pub ◌>>◌ : Exec S A → Exec S B → Exec S B
  m >> n = m >>= λ _. n

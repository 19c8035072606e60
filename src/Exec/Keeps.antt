-- ===== src/Exec/Keeps.antt =====
-- Predicates of the state that a function keeps, whatever it returns.
use rebost.Prelude.{Bool, true, false, if◌then◌else◌}
use rebost.Exec.{Result, ok, err, panic, Exec, check, continue, ◌>>=◌}

pub record Keeps {S A : Type 0} (P : S → Type 0) (m : Exec S A) : Type 0 where
  pub at : (s : S) → P s → P (m s).1

module _ {S A : Type 0} {P : S → Type 0} where
  pub Keeps-check : (r : Result A) → Keeps P (check r)
  Keeps-check r = record { at = λ s h. h }

  pub Keeps-if : (b : Bool) {m n : Exec S A} → Keeps P m → Keeps P n → Keeps P (if b then m else n)
  Keeps-if true km kn = km
  Keeps-if false km kn = kn

module _ {S A B : Type 0} {P : S → Type 0} where
  pub continue-Keeps :
      (r : Result A) (f : A → Exec S B) (s : S)
      → P s
      → ((a : A) → Keeps P (f a))
      → P (continue r f s).1
  continue-Keeps (ok a) f s h k = (k a).at s h
  continue-Keeps (err e) f s h k = h
  continue-Keeps panic f s h k = h

  pub Keeps-bind :
      {m : Exec S A} {f : A → Exec S B} → Keeps P m → ((a : A) → Keeps P (f a)) → Keeps P (m >>= f)
  Keeps-bind {m} {f} km kf = record { at = λ s h. continue-Keeps (m s).0 f (m s).1 (km.at s h) kf }

-- From `P` before to `R` after, whatever the function returns.
pub record Leads {S A : Type 0} (P R : S → Type 0) (m : Exec S A) : Type 0 where
  pub at : (s : S) → P s → R (m s).1

module _ {S A B : Type 0} {P R : S → Type 0} (f : A → Exec S B) where
  continue_weakly :
      (r : Result A) (s : S)
      → P s
      → ((t : S) → P t → R t)
      → ((a : A) → Leads P R (f a))
      → R (continue r f s).1
  continue_weakly (ok a) s h w k = (k a).at s h
  continue_weakly (err e) s h w k = w s h
  continue_weakly panic s h w k = w s h

  pub lead_before :
      {m : Exec S A}
      → Keeps P m
      → ((t : S) → P t → R t)
      → ((a : A) → Leads P R (f a))
      → Leads P R (m >>= f)
  lead_before {m} km w k = record { at = λ s h. continue_weakly (m s).0 (m s).1 (km.at s h) w k }

  pub lead_after : {m : Exec S A} → Leads P R m → ((a : A) → Keeps R (f a)) → Leads P R (m >>= f)
  lead_after {m} lm k = record { at = λ s h. continue-Keeps (m s).0 f (m s).1 (lm.at s h) k }

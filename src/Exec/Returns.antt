-- ===== src/Exec/Returns.antt =====
-- Functions that return no error from a state.
use rebost.Prelude.{◌≡◌, refl}
use rebost.Exec.{ok, Exec, pure, ◌>>=◌}

pub record Returns {S A : Type 0} (m : Exec S A) (s : S) : Type 0 where
  pub value : A
  pub at : (m s).0 ≡ ok value

module _ {S A : Type 0} where
  pub Returns-pure : (a : A) (s : S) → Returns (pure a) s
  Returns-pure a s = record { value = a; at = refl }

  pub Returns-bind :
      {B : Type 0} {m : Exec S A} {f : A → Exec S B} {s : S}
      → Returns m s
      → ((a : A) → Returns (f a) (m s).1)
      → Returns (m >>= f) s
  Returns-bind h k = record { value = (k h.value).value; at = rw h.at (k h.value).at }

  pub bind-ok :
      {B : Type 0} (m : Exec S A) (f : A → Exec S B) (s : S) (a : A)
      → (m s).0 ≡ ok a
      → (m >>= f) s ≡ f a (m s).1
  bind-ok m f s a e = rw e refl

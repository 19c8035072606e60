-- ===== src/Exec/GoesOn.antt =====
-- Functions that log the errors that they meet: they return none, and may panic.
use rebost.Prelude.{◌≡◌, refl, subst, Bool, true, false, if◌then◌else◌}
use rebost.Exec.{Error, Result, ok, err, panic, Exec, pure, continue, ◌>>=◌}

abbrev pub Settled : {S A : Type 0} → (A → S → Type 0) → Result A → S → Type 0
Settled Q (ok a) s = Q a s
Settled Q (err e) s = ⊥
Settled Q panic s = Unit {0}

-- No error, and `Q` where there is no panic.
pub record GoesOn {S A : Type 0} (m : Exec S A) (s : S) (Q : A → S → Type 0) : Type 0 where
  pub at : Settled Q (m s).0 (m s).1

module _ {S A : Type 0} {Q : A → S → Type 0} where
  pub GoesOn-pure : (a : A) (s : S) → Q a s → GoesOn (pure a) s Q
  GoesOn-pure a s q = record { at = q }

  pub GoesOn-if :
      (b : Bool) {m n : Exec S A} {s : S}
      → (b ≡ true → GoesOn m s Q)
      → (b ≡ false → GoesOn n s Q)
      → GoesOn (if b then m else n) s Q
  GoesOn-if true f g = f refl
  GoesOn-if false f g = g refl

module _ {S A B : Type 0} where
  Settled-continue :
      {R : A → S → Type 0} (Q : B → S → Type 0) (f : A → Exec S B) (r : Result A) (s : S)
      → Settled R r s
      → ((a : A) (s' : S) → R a s' → GoesOn (f a) s' Q)
      → Settled Q (continue r f s).0 (continue r f s).1
  Settled-continue Q f (ok a) s h g = (g a s h).at
  Settled-continue Q f (err e) s h g = h
  Settled-continue Q f panic s h g = tt

  pub GoesOn-bind :
      {R : A → S → Type 0} {Q : B → S → Type 0} {m : Exec S A} {f : A → Exec S B} {s : S}
      → GoesOn m s R
      → ((a : A) (s' : S) → R a s' → GoesOn (f a) s' Q)
      → GoesOn (m >>= f) s Q
  GoesOn-bind {Q} {m} {f} {s} h g = record { at = Settled-continue Q f (m s).0 (m s).1 h.at g }

module _ {S A : Type 0} where
  weaken-Settled :
      (P Q : A → S → Type 0) (r : Result A) (s : S)
      → ((a : A) → P a s → Q a s)
      → Settled P r s
      → Settled Q r s
  weaken-Settled P Q (ok a) s f h = f a h
  weaken-Settled P Q (err e) s f h = h
  weaken-Settled P Q panic s f h = tt

  pub GoesOn_weaken :
      {P Q : A → S → Type 0} {m : Exec S A} {s : S}
      → GoesOn m s P
      → ((a : A) → P a (m s).1 → Q a (m s).1)
      → GoesOn m s Q
  GoesOn_weaken {P} {Q} {m} {s} h f = record { at = weaken-Settled P Q (m s).0 (m s).1 f h.at }

  pub GoesOn-ne-err :
      {Q : A → S → Type 0} {m : Exec S A} {s : S} → GoesOn m s Q → (e : Error) → (m s).0 ≡ err e → ⊥
  GoesOn-ne-err {Q} {m} {s} h e eq = subst (λ r. Settled Q r (m s).1) eq h.at

  Settled_ok :
      (Q : A → S → Type 0) (r : Result A) (a : A) (s : S) → r ≡ ok a → Settled Q r s → Q a s
  Settled_ok Q (ok x) a s e h = let same : x ≡ a = cc e in rw (← same) h
  Settled_ok Q (err x) a s e h = absurd (cc e)
  Settled_ok Q panic a s e h = absurd (cc e)

  pub GoesOn_ok :
      {Q : A → S → Type 0} {m : Exec S A} {s : S}
      → GoesOn m s Q
      → (a : A) → (m s).0 ≡ ok a
      → Q a (m s).1
  GoesOn_ok {Q} {m} {s} h a e = Settled_ok Q (m s).0 a (m s).1 e h.at

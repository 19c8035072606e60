-- ===== src/Exec/Ensures.antt =====
-- Postconditions of functions that return an error: `Q` where the error is nil. `Ensures` states that
-- they do not panic either; of `Yields`, a panic is nothing that is stated.
use rebost.Prelude.{◌≡◌, refl, Bool, true, false, if◌then◌else◌}
use rebost.Exec.{Error, Result, ok, err, panic, Exec, pure, raise, continue, ◌>>=◌}

-- `X` is what holds where the function panics.
abbrev pub PostOr : {S A : Type 0} → (S → Type 0) → (A → S → Type 0) → Result A → S → Type 0
PostOr X Q (ok a) s = Q a s
PostOr X Q (err e) s = Unit {0}
PostOr X Q panic s = X s

abbrev pub Post : {S A : Type 0} → (A → S → Type 0) → Result A → S → Type 0
Post = PostOr λ _. ⊥

pub record EnsuresOr {S A : Type 0} (X : S → Type 0) (m : Exec S A) (s : S) (Q : A → S → Type 0)
    : Type 0 where
  pub at : PostOr X Q (m s).0 (m s).1

abbrev pub Ensures : {S A : Type 0} → Exec S A → S → (A → S → Type 0) → Type 0
Ensures = EnsuresOr λ _. ⊥

abbrev pub Yields : {S A : Type 0} → Exec S A → S → (A → S → Type 0) → Type 0
Yields = EnsuresOr λ _. Unit {0}

module _ {S A : Type 0} {X : S → Type 0} {Q : A → S → Type 0} where
  pub Ensures-pure : (a : A) (s : S) → Q a s → EnsuresOr X (pure a) s Q
  Ensures-pure a s q = record { at = q }

  pub Ensures-raise : (e : Error) (s : S) → EnsuresOr X (raise e) s Q
  Ensures-raise e s = record { at = tt }

  pub Ensures-if :
      (b : Bool) {m n : Exec S A} {s : S}
      → (b ≡ true → EnsuresOr X m s Q)
      → (b ≡ false → EnsuresOr X n s Q)
      → EnsuresOr X (if b then m else n) s Q
  Ensures-if true f g = f refl
  Ensures-if false f g = g refl

module _ {S A : Type 0} (X : S → Type 0) where
  weaken-Post :
      {P Q : A → S → Type 0} (r : Result A) (s : S)
      → ((a : A) (s' : S) → P a s' → Q a s')
      → PostOr X P r s
      → PostOr X Q r s
  weaken-Post (ok a) s f h = f a s h
  weaken-Post (err e) s f h = tt
  weaken-Post panic s f h = h

  Post-continue :
      {B : Type 0} {R : A → S → Type 0} (Q : B → S → Type 0) (f : A → Exec S B) (r : Result A)
      (s : S)
      → PostOr X R r s
      → ((a : A) (s' : S) → R a s' → EnsuresOr X (f a) s' Q)
      → PostOr X Q (continue r f s).0 (continue r f s).1
  Post-continue Q f (ok a) s h g = (g a s h).at
  Post-continue Q f (err e) s h g = tt
  Post-continue Q f panic s h g = h

  Post_ok : (Q : A → S → Type 0) (r : Result A) (a : A) (s : S) → r ≡ ok a → PostOr X Q r s → Q a s
  Post_ok Q (ok x) a s e h = let same : x ≡ a = cc e in rw (← same) h
  Post_ok Q (err x) a s e h = absurd (cc e)
  Post_ok Q panic a s e h = absurd (cc e)

  known-Post :
      (Q : A → S → Type 0) (R : S → Type 0) (r : Result A) (s : S)
      → PostOr X Q r s
      → R s
      → PostOr X (λ _ s'. R s') r s
  known-Post Q R (ok a) s h k = k
  known-Post Q R (err e) s h k = tt
  known-Post Q R panic s h k = h

  yielded :
      (Q : A → S → Type 0) (r : Result A) (s : S) → PostOr X Q r s → PostOr (λ _. Unit {0}) Q r s
  yielded Q (ok a) s h = h
  yielded Q (err e) s h = tt
  yielded Q panic s h = tt

module _ {S A : Type 0} {X : S → Type 0} where
  pub Ensures_weaken :
      {P Q : A → S → Type 0} {m : Exec S A} {s : S}
      → EnsuresOr X m s P
      → ((a : A) (s' : S) → P a s' → Q a s')
      → EnsuresOr X m s Q
  Ensures_weaken h f = record { at = weaken-Post X _ _ f h.at }

  pub Ensures-bind :
      {B : Type 0} {R : A → S → Type 0} {Q : B → S → Type 0} {m : Exec S A} {f : A → Exec S B}
      {s : S}
      → EnsuresOr X m s R
      → ((a : A) (s' : S) → R a s' → EnsuresOr X (f a) s' Q)
      → EnsuresOr X (m >>= f) s Q
  Ensures-bind {Q} {m} {f} {s} h g = record { at = Post-continue X Q f (m s).0 (m s).1 h.at g }

  -- The postcondition at a call that returns no error.
  pub Ensures_ok :
      {Q : A → S → Type 0} {m : Exec S A} {s : S}
      → EnsuresOr X m s Q
      → (a : A) → (m s).0 ≡ ok a
      → Q a (m s).1
  Ensures_ok {Q} {m} {s} h a e = Post_ok X Q (m s).0 a (m s).1 e h.at

  -- What holds of the state afterwards in any case, of a function with a postcondition.
  pub Ensures_state :
      {Q : A → S → Type 0} {m : Exec S A} {s : S} (R : S → Type 0)
      → EnsuresOr X m s Q
      → R (m s).1
      → EnsuresOr X m s (λ _ s'. R s')
  Ensures_state {Q} {m} {s} R h k = record { at = known-Post X Q R (m s).0 (m s).1 h.at k }

  pub Yields_of : {Q : A → S → Type 0} {m : Exec S A} {s : S} → EnsuresOr X m s Q → Yields m s Q
  Yields_of {Q} {m} {s} h = record { at = yielded X Q (m s).0 (m s).1 h.at }

module _ {S A : Type 0} where
  -- What is stated of a result where there is one.
  pub Yields_case :
      {Q : A → S → Type 0} (m : Exec S A) (s : S)
      → ((a : A) → (m s).0 ≡ ok a → Q a (m s).1)
      → Yields m s Q
  Yields_case {Q} m s h = record { at = shown (m s).0 refl }
    where
      shown : (r : Result A) → (m s).0 ≡ r → PostOr (λ _. Unit {0}) Q r (m s).1
      shown (ok a) e = h a e
      shown (err e) q = tt
      shown panic q = tt

  escaped :
      (X : S → Type 0) (Q : A → S → Type 0) (r : Result A) (s : S) → Post Q r s → PostOr X Q r s
  escaped X Q (ok a) s h = h
  escaped X Q (err e) s h = tt
  escaped X Q panic s h = absurd h

  pub Ensures_or :
      {X : S → Type 0} {Q : A → S → Type 0} {m : Exec S A} {s : S}
      → Ensures m s Q
      → EnsuresOr X m s Q
  Ensures_or {X} {Q} {m} {s} h = record { at = escaped X Q (m s).0 (m s).1 h.at }

  widened :
      (X Y : S → Type 0) (Q : A → S → Type 0) (r : Result A) (s : S)
      → ((s' : S) → X s' → Y s')
      → PostOr X Q r s
      → PostOr Y Q r s
  widened X Y Q (ok a) s f h = h
  widened X Y Q (err e) s f h = tt
  widened X Y Q panic s f h = f s h

  pub Ensures_widen :
      {X Y : S → Type 0} {Q : A → S → Type 0} {m : Exec S A} {s : S}
      → EnsuresOr X m s Q
      → ((s' : S) → X s' → Y s')
      → EnsuresOr Y m s Q
  Ensures_widen {X} {Y} {Q} {m} {s} h f = record { at = widened X Y Q (m s).0 (m s).1 f h.at }

-- ===== src/BoltDb/KeyGenerate/Digits.antt =====
-- The text of a key is not empty, so that the store takes it.
use rebost.Prelude.{
  ℕ, suc, ℤ, pos, negsuc, ◌/◌, ◌%◌, String, ◌==◌, ◌<>◌, ◌≡◌, ◌≢◌, refl, Bool, true, false, ltb,
  ne_of_test, eqb, inl, inr, Bool-cases, if◌then◌else◌,
}
use text.Mathlib.TextLemmas.{append-eq-nil_iff}
use rebost.BoltDb.KeyGenerate.{digit, decimal_loop, digits, decimal}

digit_test : (d : ℕ) → (digit d == "") ≡ false
digit_test d = elim (Bool-cases (eqb d 0)) [
  | inl e ↦ rw e refl
  | inr e ↦ rw e (elim (Bool-cases (eqb d 1)) [
    | inl e ↦ rw e refl
    | inr e ↦ rw e (elim (Bool-cases (eqb d 2)) [
      | inl e ↦ rw e refl
      | inr e ↦ rw e (elim (Bool-cases (eqb d 3)) [
        | inl e ↦ rw e refl
        | inr e ↦ rw e (elim (Bool-cases (eqb d 4)) [
          | inl e ↦ rw e refl
          | inr e ↦ rw e (elim (Bool-cases (eqb d 5)) [
            | inl e ↦ rw e refl
            | inr e ↦ rw e (elim (Bool-cases (eqb d 6)) [
              | inl e ↦ rw e refl
              | inr e ↦ rw e (elim (Bool-cases (eqb d 7)) [
                | inl e ↦ rw e refl
                | inr e ↦
                    rw e (elim (Bool-cases (eqb d 8)) [ inl e ↦ rw e refl | inr e ↦ rw e (refl) ])
              ])
            ])
          ])
        ])
      ])
    ])
  ])
]

digit-ne : (d : ℕ) → digit d ≢ ""
digit-ne d = ne_of_test (digit d) "" (digit_test d)

last_digit : (b : Bool) (x y : String) → x ≢ "" → y ≢ "" → (if b then x else y) ≢ ""
last_digit true x y hx hy = hx
last_digit false x y hx hy = hy

digits-ne : (n : ℕ) → digits n ≢ ""
unfolding digits decimal_loop
digits-ne n =
    last_digit (ltb n 10) (digit n) (decimal_loop 19 (n / 10) <> digit (n % 10)) (digit-ne n) (λ e.
      digit-ne (n % 10)
        ((append-eq-nil_iff {p = decimal_loop 19 (n / 10)} {q = digit (n % 10)}).0 e).1)

pub decimal-ne : (n : ℤ) → decimal n ≢ ""
unfolding decimal
decimal-ne (pos n) e = digits-ne n e
decimal-ne (negsuc n) e =
    digits-ne (suc n) ((append-eq-nil_iff {p = "-"} {q = digits (suc n)}).0 e).1

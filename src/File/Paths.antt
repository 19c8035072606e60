-- ===== src/File/Paths.antt =====
-- Two signatures of whole pairs of digits never share a place on disk.
use rebost.Prelude.{String, ◌<>◌, ◌≡◌, ◌≢◌, refl, sym, ◌∙◌, ap, test_of_ne, ne_of_test}
use text.Mathlib.TextLemmas.{
  append-nil, append_assoc, append_cancel_left, append-eq-nil_iff, append_inj, cons-append,
  nil-append, length-cons,
}
use Prim.Native.String.{count}
use Prim.Native.Char.{Char}
use rebost.File.{join, path}

-- The signature with a slash before every two digits.
abbrev split : String → String
split String.[] = ""
split (String.◌∷◌ a String.[]) = ""
split (String.◌∷◌ a (String.◌∷◌ b sig)) = "/" <> String.◌∷◌ a (String.◌∷◌ b String.[]) <> split sig

-- A signature in whole pairs of digits, as the hash is.
abbrev pub IsPaired : String → Type 0
IsPaired String.[] = Unit {0}
IsPaired (String.◌∷◌ a String.[]) = ⊥
IsPaired (String.◌∷◌ a (String.◌∷◌ b sig)) = IsPaired sig

join_lem : (base elem : String) → base ≢ "" → join base elem ≡ base <> "/" <> elem
unfolding join
join_lem base elem h = rw (test_of_ne base "" h) refl

path_lem : (base sig : String) → base ≢ "" → path base sig ≡ base <> split sig
unfolding path
path_lem base String.[] h = sym (append-nil base)
path_lem base (String.◌∷◌ a String.[]) h = sym (append-nil base)
path_lem base (String.◌∷◌ a (String.◌∷◌ b sig)) h =
    let pair = String.◌∷◌ a (String.◌∷◌ b String.[]) in
    rw (join_lem base pair h) (
      path_lem (base <> "/" <> pair) sig
        (λ e. h ((append-eq-nil_iff {p = base} {q = "/" <> pair}).0 e).0)
      ∙ append_assoc base ("/" <> pair) (split sig)
      ∙ ap (λ x. base <> x) (append_assoc "/" pair (split sig)))

two_lem :
    (a b : Char) (s : String)
    → String.◌∷◌ a (String.◌∷◌ b String.[]) <> s ≡ String.◌∷◌ a (String.◌∷◌ b s)
two_lem a b s =
    cons-append a (String.◌∷◌ b String.[]) s
    ∙ ap (λ x. String.◌∷◌ a x) (cons-append b String.[] s ∙ ap (λ x. String.◌∷◌ b x) (nil-append s))

two_count :
    (a b c d : Char)
    → count (String.◌∷◌ a (String.◌∷◌ b String.[])) ≡ count (String.◌∷◌ c (String.◌∷◌ d String.[]))
two_count a b c d =
    rw
      (
        length-cons a (String.◌∷◌ b String.[]),
        length-cons b String.[],
        length-cons c (String.◌∷◌ d String.[]),
        length-cons d String.[],
      )
      refl

slash_ne : (a b : Char) (r : String) → "/" <> String.◌∷◌ a (String.◌∷◌ b String.[]) <> r ≢ ""
slash_ne a b r e =
    ne_of_test "/" "" refl
      ((append-eq-nil_iff {p = "/"} {q = String.◌∷◌ a (String.◌∷◌ b String.[]) <> r}).0 e).0

split_inj : (s t : String) → IsPaired s → IsPaired t → split s ≡ split t → s ≡ t
split_inj String.[] String.[] hs ht e = refl
split_inj String.[] (String.◌∷◌ a String.[]) hs ht e = absurd ht
split_inj String.[] (String.◌∷◌ a (String.◌∷◌ b t)) hs ht e =
    absurd (slash_ne a b (split t) (sym e))
split_inj (String.◌∷◌ a String.[]) t hs ht e = absurd hs
split_inj (String.◌∷◌ a (String.◌∷◌ b s)) String.[] hs ht e = absurd (slash_ne a b (split s) e)
split_inj (String.◌∷◌ a (String.◌∷◌ b s)) (String.◌∷◌ c String.[]) hs ht e = absurd ht
split_inj (String.◌∷◌ a (String.◌∷◌ b s)) (String.◌∷◌ c (String.◌∷◌ d t)) hs ht e =
    let (same, rest) = append_inj (append_cancel_left "/" _ _ e) (two_count a b c d) in
    sym (two_lem a b s) ∙ (λ i. same i <> split_inj s t hs ht rest i) ∙ two_lem c d t

-- Two different signatures of whole pairs of digits have different paths under a directory with a
-- name: no two contents share a place on disk unless they share their hash.
path-ne :
    (base s t : String) → base ≢ "" → IsPaired s → IsPaired t → s ≢ t → path base s ≢ path base t
path-ne base s t h hs ht other e = other (
    split_inj s t hs ht (
      append_cancel_left base (split s) (split t)
        (sym (path_lem base s h) ∙ e ∙ path_lem base t h)))

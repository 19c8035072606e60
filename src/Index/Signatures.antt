-- ===== src/Index/Signatures.antt =====
-- The signatures of an index: which ones are there after some are added, and that none is twice.
use rebost.Prelude.{
  true, String, ◌==◌, ◌≡◌, refl, false, ◌||◌, List, [], ◌∷◌, ◌++◌, contains, arith, eq_iff, eq_refl,
  inl, inr, Bool-cases,
}
use rebost.Index.{IdxTtl, IdxVolume, add_loop, add_signatures, add_signature}

-- No text stands in the list twice.
abbrev pub NoDup : List String → Type 0
NoDup [] = Unit {0}
NoDup (x ∷ xs) = (contains xs x ≡ false) × NoDup xs

contains_last :
    (xs : List String) (s a : String) → contains (xs ++ s ∷ []) a ≡ (contains xs a || s == a)
unfolding contains
contains_last [] s a = ground arith
contains_last (x ∷ xs) s a = ground (arith, contains_last xs s a)

NoDup-append :
    (xs : List String) (s : String) → contains xs s ≡ false → NoDup xs → NoDup (xs ++ s ∷ [])
unfolding contains
NoDup-append [] s h n = (refl, tt)
NoDup-append (x ∷ xs) s h n = (
  ground (arith, contains_last xs s x, eq_iff x s, eq_iff s x),
  NoDup-append xs s (ground arith) n.1,
)

-- What the loop knows: `seen` and `sigs` hold the same texts.
module _ where
  add_loop-NoDup :
      (seen sigs rest : List String)
      → ((a : String) → contains seen a ≡ contains sigs a)
      → NoDup sigs
      → NoDup (add_loop seen sigs rest)
  unfolding add_loop
  add_loop-NoDup seen sigs [] same n = n
  add_loop-NoDup seen sigs (s ∷ rest) same n = elim (Bool-cases (contains seen s)) [
    | inl e ↦ rw e (add_loop-NoDup seen sigs rest same n)
    | inr e ↦ rw e (
        add_loop-NoDup (s ∷ seen) (sigs ++ s ∷ []) rest
          (λ a. unfold contains in ground (arith, same a, contains_last sigs s a))
          (NoDup-append sigs s (ground (arith, same s)) n))
  ]

  contains-add_loop :
      (seen sigs rest : List String) (a : String)
      → ((b : String) → contains seen b ≡ contains sigs b)
      → contains (add_loop seen sigs rest) a ≡ (contains sigs a || contains rest a)
  unfolding add_loop
  contains-add_loop seen sigs [] a same = unfold contains in ground arith
  contains-add_loop seen sigs (s ∷ rest) a same = elim (Bool-cases (contains seen s)) [
    | inl e ↦
        rw (e, contains-add_loop seen sigs rest a same)
          (unfold contains in ground (arith, eq_iff s a, same s))
    | inr e ↦
        rw
          (
            e,
            contains-add_loop (s ∷ seen) (sigs ++ s ∷ []) rest a
                (λ b. unfold contains in ground (arith, same b, contains_last sigs s b)),
          )
          (unfold contains in ground (arith, contains_last sigs s a))
  ]

-- Adding signatures to an index of expirations leaves exactly the old and the new ones there, none
-- of them twice if none was, and its instant as it was.
pub add_signatures-Union :
    (i : IdxTtl) (ss : List String)
    → NoDup i.signatures
    → ((a : String)
        → contains (add_signatures i ss).signatures a ≡ (contains i.signatures a || contains ss a))
      × NoDup (add_signatures i ss).signatures
      × ((add_signatures i ss).expires_at ≡ i.expires_at)
unfolding add_signatures
add_signatures-Union i ss n = (
  λ a. contains-add_loop i.signatures i.signatures ss a (λ b. refl),
  add_loop-NoDup i.signatures i.signatures ss (λ b. refl) n,
  refl,
)

pub contains-add_signature :
    (i : IdxVolume) (sig : String) → contains (add_signature i sig).signatures sig ≡ true
unfolding add_signature
contains-add_signature i sig = elim (Bool-cases (contains i.signatures sig)) [
  | inl e ↦ rw (e, e) refl
  | inr e ↦ rw (e, contains_last i.signatures sig sig, eq_refl sig) (ground arith)
]

pub add_signature-volume_id :
    (i : IdxVolume) (sig : String) → (add_signature i sig).volume_id ≡ i.volume_id
unfolding add_signature
add_signature-volume_id i sig = elim (Bool-cases (contains i.signatures sig)) [
  | inl e ↦ rw e refl
  | inr e ↦ rw e refl
]

-- Noting a signature for a volume leaves exactly the old ones and that one there, none of them
-- twice if none was, and noting it once more changes nothing.
add_signature-Union :
    (i : IdxVolume) (sig : String)
    → NoDup i.signatures
    → ((a : String)
        → contains (add_signature i sig).signatures a ≡ (contains i.signatures a || sig == a))
      × NoDup (add_signature i sig).signatures
      × (add_signature (add_signature i sig) sig ≡ add_signature i sig)
unfolding add_signature
add_signature-Union i sig n = elim (Bool-cases (contains i.signatures sig)) [
  | inl e ↦ rw (e, e) (λ a. ground (arith, eq_iff sig a), n, refl)
  | inr e ↦
      rw (e, contains_last i.signatures sig sig)
        (
          λ a. contains_last i.signatures sig a,
          NoDup-append i.signatures sig e n,
          rw (e, eq_refl sig) refl,
        )
]

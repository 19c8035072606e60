-- ===== src/BoltDb/Registry/Created.antt =====
-- The constructors of the repositories create every bucket.
use rebost.Prelude.{String, ◌≡◌, refl, Option, some, List, [], ◌∷◌, inl, inr, Option-cases}
use rebost.Exec.{ok}
use rebost.Exec.Ensures.{Ensures, Ensures-bind, Ensures_weaken}
use rebost.BoltDb.Registry.{
  Kind, files, idxkeys, idxttls, idxvolumes, replicas, states, bucket_name,
}
use rebost.BoltDb.Registry.Calls.{Database, IsDatabase, telling, create_bucket, new_repositories}

-- Every kind has its bucket.
pub record HasBuckets {B : Type 0} (bucket : String → Option B) : Type 0 where
  pub at : (k : Kind) → (b : B) × (bucket (bucket_name k) ≡ some b)

module _ {D B : Type 0} (db : Database D B) (i : IsDatabase db) where
  Has : D → Kind → Type 0
  Has d k = (b : B) × (db.bucket d (bucket_name k) ≡ some b)

  -- A bucket that is there stays, whatever is created.
  Has-new :
      (what : String) (j k : Kind) (d : D)
      → Has d k
      → Has (telling db what (create_bucket db (bucket_name j)) d).1 k
  unfolding Has
  Has-new what j k d (b, e) = i.keeps (bucket_name j) (bucket_name k) d b e

  Has-created :
      (what : String) (k : Kind) (d : D)
      → (telling db what (create_bucket db (bucket_name k)) d).0 ≡ ok tt
      → Has (telling db what (create_bucket db (bucket_name k)) d).1 k
  unfolding Has
  Has-created what k d h = elim (Option-cases (db.create_bucket (bucket_name k) d).0) [
    | inl e ↦ i.creates (bucket_name k) d e
    | inr (x, e) ↦ absurd (cc (rw e at h))
  ]

  AllHas : D → List Kind → Type 0
  AllHas d [] = Unit {0}
  AllHas d (k ∷ ks) = Has d k × AllHas d ks

  AllHas-new :
      (what : String) (j : Kind) (ks : List Kind) (d : D)
      → AllHas d ks
      → AllHas (telling db what (create_bucket db (bucket_name j)) d).1 ks
  unfolding AllHas
  AllHas-new what j [] d h = tt
  AllHas-new what j (k ∷ ks) d h = (Has-new what j k d h.0, AllHas-new what j ks d h.1)

  telling-Ensures :
      (what : String) (k : Kind) (ks : List Kind) (d : D)
      → AllHas d ks
      → Ensures (telling db what (create_bucket db (bucket_name k))) d (λ _ d'. AllHas d' (k ∷ ks))
  unfolding AllHas
  telling-Ensures what k ks d h = elim (Option-cases (db.create_bucket (bucket_name k) d).0) [
    | inl e ↦ record { at = rw e (Has-created what k d (rw e refl), AllHas-new what k ks d h) }
    | inr (x, e) ↦ record { at = rw e tt }
  ]

  -- Where the constructors return no error, every kind of repository has its bucket.
  pub new_repositories-Ensures :
      (d : D) → Ensures (new_repositories db) d (λ _ d'. HasBuckets (db.bucket d'))
  unfolding new_repositories AllHas Has
  new_repositories-Ensures d =
      Ensures-bind (telling-Ensures "error creating File Repository: " files [] d tt) λ _ d1 h1.
        Ensures-bind
          (telling-Ensures "error creating IDXKeys Repository: " idxkeys (files ∷ []) d1 h1)
          λ _ d2 h2.
            Ensures-bind
              (telling-Ensures "error creating IDXTTL Repository: " idxttls (idxkeys ∷ files ∷ [])
                d2 h2)
              λ _ d3 h3.
                Ensures-bind
                  (telling-Ensures "error creating IDXVolumes Repository: " idxvolumes
                    (idxttls ∷ idxkeys ∷ files ∷ []) d3 h3)
                  λ _ d4 h4.
                    Ensures-bind
                      (telling-Ensures "error creating Replica Repository: " replicas
                        (idxvolumes ∷ idxttls ∷ idxkeys ∷ files ∷ []) d4 h4)
                      λ _ d5 h5.
                        Ensures_weaken
                          (telling-Ensures "error creating State Repository: " states
                            (replicas ∷ idxvolumes ∷ idxttls ∷ idxkeys ∷ files ∷ []) d5 h5)
                          λ _ d6 h6. record {
                            at =
                                every (db.bucket d6) h6.0 h6.1.0 h6.1.1.0 h6.1.1.1.0 h6.1.1.1.1.0
                                  h6.1.1.1.1.1.0;
                          }
    where
      every :
          (bucket : String → Option B)
          → ((b : B) × (bucket "state" ≡ some b))
          → ((b : B) × (bucket "replica" ≡ some b))
          → ((b : B) × (bucket "idxvolumes" ≡ some b))
          → ((b : B) × (bucket "idxttls" ≡ some b))
          → ((b : B) × (bucket "idxkeys" ≡ some b))
          → ((b : B) × (bucket "files" ≡ some b))
          → (k : Kind) → (b : B) × (bucket (bucket_name k) ≡ some b)
      every bucket s r v t i f states = s
      every bucket s r v t i f replicas = r
      every bucket s r v t i f idxvolumes = v
      every bucket s r v t i f idxttls = t
      every bucket s r v t i f idxkeys = i
      every bucket s r v t i f files = f

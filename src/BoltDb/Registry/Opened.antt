-- ===== src/BoltDb/Registry/Opened.antt =====
-- What a unit of work has once its repositories are added.
use rebost.Prelude.{
  String, ◌≡◌, refl, sym, inl, inr, Option-cases, Bool-cases, ◌∙◌, Bool, true, false, ◌||◌, Option,
  none, some, List, [], ◌∷◌, if◌then◌else◌, arith,
}
use rebost.Exec.{ok}
use rebost.BoltDb.Registry.{
  Kind, files, idxkeys, idxttls, idxvolumes, replicas, states, Repository, stored, fs, other,
  bucket_name, UnitOfWork, repository, with_bucket, add_repositories,
}

abbrev pub same_kind : Kind → Kind → Bool
same_kind files files = true
same_kind idxkeys idxkeys = true
same_kind idxttls idxttls = true
same_kind idxvolumes idxvolumes = true
same_kind replicas replicas = true
same_kind states states = true
same_kind _ _ = false

abbrev pub mentions : {F : Type 0} → List (Repository F) → Kind → Bool
mentions [] k = false
mentions (stored j ∷ rs) k = same_kind j k || mentions rs k
mentions (fs f ∷ rs) k = mentions rs k
mentions (other ty ∷ rs) k = mentions rs k

abbrev pub or_else : {B : Type 0} → Option B → Option B → Option B
or_else (some b) o = some b
or_else none o = o

or_else-none : {B : Type 0} (o : Option B) → or_else o none ≡ o
or_else-none none = refl
or_else-none (some b) = refl

-- The repository of a kind is the one that was there, or else that on the bucket of its name, if it
-- was asked for; and one that was asked for is there.
pub record IsOpened {B F : Type 0} (bucket : String → Option B) (rs : List (Repository F))
    (u u' : UnitOfWork B F) (k : Kind) : Type 0 where
  pub opened :
      repository u' k
      ≡ or_else (repository u k) (if mentions rs k then bucket (bucket_name k) else none)
  pub supplied : mentions rs k ≡ true → (b : B) × (repository u' k ≡ some b)

same_kind-eq : (j k : Kind) → same_kind j k ≡ true → j ≡ k
same_kind-eq files k h = ground arith
same_kind-eq idxkeys k h = ground arith
same_kind-eq idxttls k h = ground arith
same_kind-eq idxvolumes k h = ground arith
same_kind-eq replicas k h = ground arith
same_kind-eq states k h = ground arith

module _ {B F : Type 0} (bucket : String → Option B) where
  repository-with_bucket :
      (u : UnitOfWork B F) (j : Kind) (b : B) (k : Kind)
      → repository (with_bucket u j b) k ≡ (if same_kind j k then some b else repository u k)
  repository-with_bucket u files b k = ground arith
  repository-with_bucket u idxkeys b k = ground arith
  repository-with_bucket u idxttls b k = ground arith
  repository-with_bucket u idxvolumes b k = ground arith
  repository-with_bucket u replicas b k = ground arith
  repository-with_bucket u states b k = ground arith

  fs_apart :
      (u : UnitOfWork B F) (f : F) (k : Kind)
      → repository (record u { fs_repository = some f }) k ≡ repository u k
  fs_apart u f files = refl
  fs_apart u f idxkeys = refl
  fs_apart u f idxttls = refl
  fs_apart u f idxvolumes = refl
  fs_apart u f replicas = refl
  fs_apart u f states = refl

  -- The kinds of a list where one more is in front, for a kind that is that one and for another.
  step_same :
      (j k : Kind) (rs : List (Repository F)) (u u1 u' : UnitOfWork B F) (b : B)
      → same_kind j k ≡ true
      → repository u1 k ≡ some b
      → or_else (repository u k) (bucket (bucket_name k)) ≡ some b
      → IsOpened bucket rs u1 u' k
      → IsOpened bucket (stored j ∷ rs) u u' k
  step_same j k rs u u1 u' b e now before h =
      let there : repository u' k ≡ some b = h.opened ∙ rw now refl in
      record { opened = there ∙ rw e (sym before); supplied = λ _. (b, there) }

  step_other :
      (j k : Kind) (rs : List (Repository F)) (u u1 u' : UnitOfWork B F)
      → same_kind j k ≡ false
      → repository u1 k ≡ repository u k
      → IsOpened bucket rs u1 u' k
      → IsOpened bucket (stored j ∷ rs) u u' k
  step_other j k rs u u1 u' e same h = record {
    opened = h.opened ∙ rw (same, e) refl;
    supplied = rw e h.supplied;
  }

  -- Where the repositories of a list can all be added, each kind of repository is afterwards the one
  -- that was there before, or else that on the bucket of its name if the list has the kind, and nil
  -- otherwise; and each kind of the list is there. So neither the order nor repetitions matter.
  pub add_repositories-IsOpened :
      (rs : List (Repository F)) (u u' : UnitOfWork B F) (k : Kind)
      → add_repositories bucket rs u ≡ ok u'
      → IsOpened bucket rs u u' k
  unfolding add_repositories
  add_repositories-IsOpened [] u u' k h =
      let same : u ≡ u' = cc h in
      rw (← same)
        (record { opened = sym (or_else-none (repository u k)); supplied = λ e. absurd (cc e) })
  add_repositories-IsOpened (fs f ∷ rs) u u' k h =
      let r = add_repositories-IsOpened rs (record u { fs_repository = some f }) u' k h in
      record { opened = r.opened ∙ rw (fs_apart u f k) refl; supplied = r.supplied }
  add_repositories-IsOpened (other ty ∷ rs) u u' k h = absurd (cc h)
  add_repositories-IsOpened (stored j ∷ rs) u u' k h = elim (Option-cases (repository u j)) [
    | inr (b, e) ↦
        let r = add_repositories-IsOpened rs u u' k (rw e at h) in
        elim (Bool-cases (same_kind j k)) [
          | inl q ↦
              let there : repository u k ≡ some b = rw (← same_kind-eq j k q) e in
              step_same j k rs u u u' b q there (rw there refl) r
          | inr q ↦ step_other j k rs u u u' q refl r
        ]
    | inl e ↦ elim (Option-cases (bucket (bucket_name j))) [
      | inl e1 ↦ absurd (cc (rw (e, e1) at h))
      | inr (b, e1) ↦
          let r = add_repositories-IsOpened rs (with_bucket u j b) u' k (rw (e, e1) at h) in
          let now = repository-with_bucket u j b k in
          elim (Bool-cases (same_kind j k)) [
            | inl q ↦
                let before : or_else (repository u k) (bucket (bucket_name k)) ≡ some b =
                  rw (← same_kind-eq j k q) (rw e e1) in
                step_same j k rs u (with_bucket u j b) u' b q (now ∙ rw q refl) before r
            | inr q ↦ step_other j k rs u (with_bucket u j b) u' q (now ∙ rw q refl) r
          ]
    ]
  ]

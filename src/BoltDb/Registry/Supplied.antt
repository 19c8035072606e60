-- ===== src/BoltDb/Registry/Supplied.antt =====
-- What a unit of work finds that is started once the database is set up.
use rebost.Prelude.{
  if◌then◌else◌, String, ◌≡◌, ◌≢◌, refl, ◌∙◌, true, Option, none, some, List, [], ◌∷◌, inl, inr,
  Option-cases,
}
use rebost.Exec.{ok}
use rebost.Exec.Ensures.{Ensures_ok}
use rebost.BoltDb.Registry.{
  with_bucket, bucket_name, Kind, files, idxkeys, idxttls, idxvolumes, replicas, states, Repository,
  stored, fs, other, UnitOfWork, repository, new_unit_of_work, add_repository, add_repositories,
}
use rebost.BoltDb.Registry.Opened.{mentions, add_repositories-IsOpened}
use rebost.BoltDb.Registry.Calls.{Database, IsDatabase, new_repositories}
use rebost.BoltDb.Registry.Created.{HasBuckets, new_repositories-Ensures}

-- Every member of the list is a repository or a file system of the program.
abbrev pub Known : {F : Type 0} → List (Repository F) → Type 0
Known [] = Unit {0}
Known (stored k ∷ rs) = Known rs
Known (fs f ∷ rs) = Known rs
Known (other ty ∷ rs) = ⊥

abbrev pub fs_of : {F : Type 0} → List (Repository F) → Option F → Option F
fs_of [] o = o
fs_of (stored k ∷ rs) o = fs_of rs o
fs_of (fs f ∷ rs) o = fs_of rs (some f)
fs_of (other ty ∷ rs) o = fs_of rs o

-- All of a list can be added, and the file system is the last one of the list.
record AreAdded {B F : Type 0} (bucket : String → Option B) (rs : List (Repository F))
    (u : UnitOfWork B F) : Type 0 where
  pub after : UnitOfWork B F
  pub all : add_repositories bucket rs u ≡ ok after
  pub fs_after : after.fs_repository ≡ fs_of rs u.fs_repository

module _ {B F : Type 0} (bucket : String → Option B) (has : HasBuckets bucket) where
  add_repository-stored :
      (k : Kind) (u : UnitOfWork B F)
      → (u1 : UnitOfWork B F) × (add_repository bucket (stored k) u ≡ ok u1)
        × (u1.fs_repository ≡ u.fs_repository)
  unfolding add_repository
  add_repository-stored k u = elim (Option-cases (repository u k)) [
    | inr (b, e) ↦ (u, rw e refl, refl)
    | inl e ↦ let (b, h) = has.at k in (with_bucket u k b, rw (e, h) refl, with_bucket-fs k u b)
  ]
    where
      with_bucket-fs :
          (k : Kind) (u : UnitOfWork B F) (b : B)
          → (with_bucket u k b).fs_repository ≡ u.fs_repository
      with_bucket-fs files u b = refl
      with_bucket-fs idxkeys u b = refl
      with_bucket-fs idxttls u b = refl
      with_bucket-fs idxvolumes u b = refl
      with_bucket-fs replicas u b = refl
      with_bucket-fs states u b = refl

  all-AreAdded : (rs : List (Repository F)) (u : UnitOfWork B F) → Known rs → AreAdded bucket rs u
  unfolding add_repositories
  all-AreAdded [] u h = record { after = u; all = refl; fs_after = refl }
  all-AreAdded (stored k ∷ rs) u h =
      let (u1, e, same) = add_repository-stored k u in
      let r = all-AreAdded rs u1 h in
      record { after = r.after; all = rw e r.all; fs_after = r.fs_after ∙ rw same refl }
  all-AreAdded (fs f ∷ rs) u h =
      let r = all-AreAdded rs (record u { fs_repository = some f }) h in
      record { after = r.after; all = r.all; fs_after = r.fs_after }
  all-AreAdded (other ty ∷ rs) u h = absurd h

new_is_empty : (B F : Type 0) (k : Kind) → repository (new_unit_of_work {B = B} {F = F}) k ≡ none
new_is_empty B F files = refl
new_is_empty B F idxkeys = refl
new_is_empty B F idxttls = refl
new_is_empty B F idxvolumes = refl
new_is_empty B F replicas = refl
new_is_empty B F states = refl

-- All of the list is added. Each kind that the list has is on the bucket of its name, each other kind
-- is nil, and the file system is the last one of the list.
pub record IsStarted {B F : Type 0} (bucket : String → Option B) (rs : List (Repository F))
    : Type 0 where
  pub after : UnitOfWork B F
  pub all : add_repositories bucket rs new_unit_of_work ≡ ok after
  pub repositories :
      (k : Kind) → repository after k ≡ (if mentions rs k then bucket (bucket_name k) else none)
  pub there : (k : Kind) → mentions rs k ≡ true → repository after k ≢ none
  pub file_system : after.fs_repository ≡ fs_of rs none

-- Once the constructors of the repositories have returned no error, a unit of work is started with any
-- list of repositories and file systems: all of it is added with no error, each kind of the list is
-- there, on the bucket of its name, each other kind is nil, and the file system is the last of the
-- list.
pub new_repositories-IsStarted :
    {D B F : Type 0} (db : Database D B)
    → IsDatabase db
    → (d : D) → (new_repositories db d).0 ≡ ok tt
    → (rs : List (Repository F)) → Known rs
    → IsStarted (db.bucket (new_repositories db d).1) rs
new_repositories-IsStarted {B} {F} db i d h rs known =
    let bucket = db.bucket (new_repositories db d).1 in
    let has = Ensures_ok (new_repositories-Ensures db i d) tt h in
    let r = all-AreAdded bucket has rs new_unit_of_work known in
    let opened =
      λ (k : Kind). add_repositories-IsOpened bucket rs new_unit_of_work r.after k r.all in
    record {
      after = r.after;
      all = r.all;
      repositories = λ k. (opened k).opened ∙ rw (new_is_empty B F k) refl;
      there = λ k e missing. let (b, same) = (opened k).supplied e in cc (same, missing);
      file_system = r.fs_after;
    }

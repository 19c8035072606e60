-- ===== src/Tests/Buckets.antt =====
-- A database of names of buckets.
use rebost.Prelude.{
  String, ◌≡◌, refl, Bool, true, false, ◌||◌, Option, none, some, List, [], ◌∷◌, contains, eq_refl,
}
use rebost.Exec.{ok}
use rebost.BoltDb.Registry.Calls.{Database, IsDatabase, new_repositories}
use rebost.BoltDb.Registry.Supplied.{IsStarted, new_repositories-IsStarted}
use rebost.BoltDb.Registry.{stored, fs, idxkeys, files, states}

abbrev named : Bool → String → Option String
named true name = some name
named false name = none

abbrev names : Database (List String) String
names = record {
  create_bucket = λ name d. (none, name ∷ d);
  bucket = λ d name. named (contains d name) name;
}

named-kept :
    (b c : Bool) (name x : String)
    → named b name ≡ some x
    → (y : String) × (named (c || b) name ≡ some y)
named-kept true true name x e = (name, refl)
named-kept true false name x e = (name, refl)
named-kept false c name x e = absurd (cc e)

names-IsDatabase : IsDatabase names
unfolding contains
names-IsDatabase = record {
  creates = λ name d e. (name, rw (eq_refl name) refl);
  keeps = λ name j d b e. named-kept (contains d j) _ j b e;
}

abbrev opened_names : List String
opened_names = (new_repositories names []).1

opened_lem : (new_repositories names []).0 ≡ ok tt
unfolding new_repositories
opened_lem = refl

new_repositories-IsStarted_example :
    IsStarted {F = String}
      (names.bucket opened_names)
      (stored idxkeys ∷ stored files ∷ fs "os" ∷ stored files ∷ stored states ∷ [])
new_repositories-IsStarted_example =
    new_repositories-IsStarted names names-IsDatabase [] opened_lem
      (stored idxkeys ∷ stored files ∷ fs "os" ∷ stored files ∷ stored states ∷ []) tt

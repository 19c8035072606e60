-- ===== src/Volume/Reads.antt =====
-- `GetFile`, `HasFile`, `NextReplica` and `GetState` of volume/volume.go.
use rebost.Prelude.{String, ◌==◌, Bool, true, false, none, some, if◌then◌else◌}
use rebost.Exec.{Result, ok, err, panic, Exec, not_found, pure, ◌>>=◌, ◌>>◌}
use rebost.Platform.{Platform, Bytes}
use rebost.File.{path}
use rebost.Replica.{Replica}
use rebost.State.{State}
use rebost.BoltDb.Repositories.{find_key, first_replica, find_state}
use rebost.BoltDb.Uow.{read, write}
use rebost.Volume.Defs.{Volume, Inputs, in_uow}

module _ ⦃p : Platform⦄ where
  -- `l.fs.Open`
  abbrev pub open_file : String → Exec Volume Bytes
  open_file name v = (elim (p.read v.fs name) [ none ↦ err (p.missing name) | some c ↦ ok c ], v)

  unfoldable pub get_file : Inputs → String → Exec Volume Bytes
  get_file i k = do idk ← in_uow i read (find_key k); λ v. open_file (path v.file_dir idk.value) v

  abbrev pub answer : String → Result (Unit {0}) → Result (String × Bool)
  answer id (ok _) = ok (id, true)
  answer id (err e) = if e == not_found then ok ("", false) else err e
  answer id panic = panic

  unfoldable pub has_file : Inputs → String → Exec Volume (String × Bool)
  has_file i k v = let (r, v') = in_uow i read (do find_key k; pure tt) v in (answer v.id r, v')

  unfoldable pub next_replica : Inputs → Exec Volume Replica
  next_replica i = in_uow i write first_replica

  unfoldable pub get_state : Inputs → Exec Volume State
  get_state i = in_uow i read find_state

-- ===== src/Volume/Defs.antt =====
-- `local` of volume/volume.go, its unit of work over files and buckets, and what a call reads.
use rebost.Prelude.{ℕ, String, Option, ℤ}
use rebost.Exec.{Error, Exec, of_error}
use rebost.Platform.{Platform, Time}
use rebost.FsUow.{Tracker}
use rebost.BoltDb.Repositories.{Tx}
use rebost.BoltDb.Uow.{UowType, Outcome, Store, start_uow}

pub record Volume ⦃p : Platform⦄ : Type 0 where
  pub file_dir : String
  pub temp_dir : String
  pub root : String
  pub total_size : ℤ
  pub store : Store
  pub open store use *

-- What one call reads from outside: the clock as an instant and as `UnixNano`, two fresh UUIDs, the
-- error of `Stat` on the new file, the outcomes of the transaction, and how far `io.Copy` has come: how
-- many bytes were hashed, and how many more a write that failed has put in the file.
pub record Inputs : Type 0 where
  pub now : Time
  pub nanos : ℤ
  pub file_uuid : String
  pub replica_uuid : String
  pub stat_error : Option Error
  pub hashed : ℕ
  pub excess : ℕ
  pub outcome : Outcome

module _ ⦃p : Platform⦄ where
  -- An operation of `l.fs`, outside every unit of work.
  abbrev pub on_fs : (p.Fs → Option Error × p.Fs) → Exec Volume (Unit {0})
  on_fs f v = let (e, fs) = f v.fs in (of_error e, record v { store = record v.store { fs = fs } })

  -- An operation of `uw.Fs()`.
  abbrev pub tracked : (Tracker → Option Error × Tracker) → Exec Tx (Unit {0})
  tracked f t = let (e, tracker) = f t.tracker in (of_error e, record t { tracker = tracker })

  -- `l.startUnitOfWork(ctx, u, body, …)`
  unfoldable pub in_uow : {A : Type 0} → Inputs → UowType → Exec Tx A → Exec Volume A
  in_uow i u body v = let (r, s) = start_uow i.outcome u body v.store in (r, record v { store = s })

-- ===== src/BoltDb/Uow.antt =====
-- boltdb/unit_of_work.go (`NewUOW`) inside fs/unit_of_work.go (`UOWWithFs`), as cmd/serve.go nests
-- them: one transaction of the repositories, with the tracked file system beside it.
pub mod Transactions
use rebost.Prelude.{ℤ, ℕ, String, ◌<>◌, Option, none, some}
use rebost.Exec.{Error, Result, ok, err, Exec}
use rebost.Platform.{Platform}
use rebost.FsUow.{new_tracker, settle}
use rebost.BoltDb.Repositories.{Db, Tx}

pub data UowType : Type 0 where
  read write : UowType

-- What the calls of the transaction return: `Begin`, `Commit` and `Rollback`.
pub record Outcome : Type 0 where
  pub begin_error : Option Error
  pub commit_error : Option Error
  pub rollback_error : Option Error

abbrev pub no_errors : Outcome
no_errors = record { begin_error = none; commit_error = none; rollback_error = none }

-- What outlives a unit of work.
pub record Store ⦃p : Platform⦄ : Type 0 where
  pub db : Db
  pub open db use *
  pub fs : p.Fs
  pub last_key : ℤ
  pub id : String

abbrev pub open_store : ⦃p : Platform⦄ → Store → Tx
open_store s = record { db = s.db; tracker = new_tracker s.fs; last_key = s.last_key; id = s.id }

module _ ⦃p : Platform⦄ {A : Type 0} where
  -- The transaction is closed without a commit: the buckets are those before it.
  abbrev pub roll_back : Outcome → Result A → Db → Tx → Result A × Tx
  roll_back o r db t = (
    elim o.rollback_error [ none ↦ r | some e ↦ err ("failed to rollback TX: " <> e) ],
    record t { db = db },
  )

  -- A failed commit has closed the transaction, and `Rollback` returns `ErrTxClosed`.
  abbrev pub commit : Outcome → A → Db → Tx → Result A × Tx
  commit o a db t = elim o.commit_error [
    | none ↦ (ok a, t)
    | some e ↦ (err ("failed to commit TX: " <> e), record t { db = db })
  ]

  -- The two deferred functions. `err` is nil while a panic unwinds, so that one commits too.
  unfoldable pub close : Outcome → UowType → Result A → Db → Tx → Result A × Tx
  close o read r db t = roll_back o r db t
  close o write (ok a) db t = commit o a db t
  close o write (err e) db t = roll_back o (err e) db t
  close o write Result.panic db t =
      (Result.panic, elim o.commit_error [ none ↦ t | some _ ↦ record t { db = db } ])

  -- The error of `begin`, then the body and the deferred functions.
  unfoldable pub begun : Option Error → Outcome → UowType → Exec Tx A → Exec Tx A
  unfolding close
  begun none o u body t = let (r, t') = body t in close o u r t.db t'
  begun (some e) o u body t = (err ("could not initialize TX: " <> e), t)

  unfoldable pub bolt_uow : Outcome → UowType → Exec Tx A → Exec Tx A
  unfolding begun
  bolt_uow o = begun o.begin_error o

  unfoldable pub start_uow : Outcome → UowType → Exec Tx A → Exec Store A
  unfolding bolt_uow settle
  start_uow o u body s =
      let (r, t) = bolt_uow o u body (open_store s) in
      let (r', fs) = settle r t.tracker in
      (r', record { db = t.db; fs = fs; last_key = t.last_key; id = t.id })

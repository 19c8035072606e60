-- ===== src/Serve.antt =====
-- cmd/serve.go: how a node attaches a volume, once its repositories are made.
pub mod Opened
pub mod Attached
pub mod FirstStart
use rebost.Prelude.{ℕ, String, ℤ, if◌then◌else◌}
use rebost.Exec.{Result, ok, err, panic, Exec, pure, prefixed, ◌>>=◌}
use rebost.Platform.{Platform, Time, Bytes}
use rebost.State.{State, is_in_downtime_range}
use rebost.BoltDb.Repositories.{find_state}
use rebost.BoltDb.Uow.{read, Outcome, Store, start_uow}
use rebost.Volume.Defs.{Volume, Inputs}
use rebost.Volume.Reset.{Disk, reset}
use rebost.Volume.Start

-- What the three units of work read from outside, the disk at `New` and at `Reset`, and the clock
-- that `IsInDowntimeRange` reads.
pub record Starting : Type 0 where
  pub reading : Outcome
  pub opening : Inputs
  pub disk : Disk
  pub clock : Time
  pub resetting : Inputs
  pub later_disk : Disk

module _ ⦃p : Platform⦄ where
  abbrev pub failing : {A : Type 0} → String → Exec Store A → Exec Store A
  failing what m s = let (r, s') = m s in (prefixed what r, s')

  abbrev pub after_reset : Result (Unit {0}) → Volume → Result Volume
  after_reset (ok _) v = ok v
  after_reset (err e) v = err e
  after_reset panic v = panic

  -- `v.Reset(ctx)`, and the volume afterwards.
  abbrev pub reset_volume : Inputs → Disk → Volume → Exec Store Volume
  reset_volume i disk v s =
      let (r, v') = reset i disk (record v { store = s }) in (after_reset r v', v'.store)

  unfoldable pub reset_if_old : Starting → ℤ → State → Volume → Exec Store Volume
  reset_if_old x downtime st v =
      if is_in_downtime_range st downtime x.clock
      then failing "error resetting the Volume due to downtime: "
          (reset_volume x.resetting x.later_disk v)
      else pure v

  -- The state is read before `New` updates it.
  unfoldable pub attach :
      (String → Result ℕ) → (Bytes → String) → Starting → String → ℤ → Exec Store Volume
  unfolding reset_if_old
  attach to_bytes text_of x vp downtime = do
    st ← failing "error getting the state of Volume: " (start_uow x.reading read find_state)
    v ← failing "error creating Volume: " (Start.new to_bytes text_of x.opening x.disk vp)
    reset_if_old x downtime st v

-- ===== src/Serve/FirstStart.antt =====
-- A volume that a node attaches for the first time.
use rebost.Prelude.{ℕ, String, ◌<>◌, ◌≡◌, refl, ◌∙◌, ap, true, false, none, ℤ}
use text.Mathlib.Text.{starts_with}
use rebost.Exec.{Error, Result, ok, err, panic}
use rebost.Exec.Ensures.{PostOr, Yields, Yields_of, Yields_case, Ensures-bind, Ensures_ok}
use rebost.Platform.{Platform, Time, Bytes, add, before, zero_time}
use rebost.File.{join}
use rebost.FsUow.{tmp_name}
use rebost.State.{State, empty_state, is_in_downtime_range}
use rebost.BoltDb.Repositories.{state_key}
use rebost.BoltDb.Uow.{Store, open_store}
use rebost.Volume.Defs.{Volume, Inputs, in_uow}
use rebost.Volume.Create.{split_path, create_file}
use rebost.Volume.Create.Stores.{current_state}
use rebost.Volume.Reset.{Disk, reset}
use rebost.Volume.Reset.Closed.{HasDirs, reset_then_create}
use rebost.Volume.Start.{new}
use rebost.Serve.{failing, Starting, after_reset, reset_if_old, attach}
use rebost.Serve.Opened.{failing-Ensures, reads}

module _ ⦃p : Platform⦄ where
  no_state :
      (s : Store) → p.get s.states state_key ≡ none → current_state (open_store s) ≡ empty_state
  no_state s e = rw e refl

  empty_is_late :
      (downtime : ℤ) (clock : Time)
      → before (add zero_time downtime) clock ≡ true
      → is_in_downtime_range empty_state downtime clock ≡ true
  unfolding is_in_downtime_range
  empty_is_late downtime clock e = e

  -- The volume is what a reset has left, under the same root.
  record IsReset (x : Starting) (v : Volume) : Type 0 where
    pub before_reset : Volume
    pub returned : (reset x.resetting x.later_disk before_reset).0 ≡ ok tt
    pub left : v ≡ (reset x.resetting x.later_disk before_reset).1

  with_root : (i : Inputs) (disk : Disk) (v : Volume) → (reset i disk v).1.root ≡ v.root
  unfolding reset in_uow
  with_root i disk v = refl

  with_temp_dir : (i : Inputs) (disk : Disk) (v : Volume) → (reset i disk v).1.temp_dir ≡ v.temp_dir
  unfolding reset in_uow
  with_temp_dir i disk v = refl

  resets :
      (x : Starting) (downtime : ℤ) (st : State) (v : Volume) (s : Store)
      → is_in_downtime_range st downtime x.clock ≡ true
      → Yields (reset_if_old x downtime st v) s (λ w _. IsReset x w)
  unfolding reset_if_old
  resets x downtime st v s over = rw over (
      failing-Ensures "error resetting the Volume due to downtime: " _ s
        (record { at = seen (reset x.resetting x.later_disk u).0 refl }))
    where
      u : Volume
      u = record v { store = s }

      seen :
          (r : Result (Unit {0}))
          → (reset x.resetting x.later_disk u).0 ≡ r
          → PostOr
              (λ _. Unit {0})
              (λ w (_ : Store). IsReset x w)
              (after_reset r (reset x.resetting x.later_disk u).1)
              (reset x.resetting x.later_disk u).1.store
      seen (ok _) e = record { before_reset = u; returned = e; left = refl }
      seen (err e) q = tt
      seen panic q = tt

  module _ (to_bytes : String → Result ℕ) (text_of : Bytes → String) (x : Starting) (vp : String)
      (downtime : ℤ) (s : Store) (fresh : p.get s.states state_key ≡ none)
      (late : before (add zero_time downtime) x.clock ≡ true) where
    attach-IsReset : Yields (attach to_bytes text_of x vp downtime) s (λ v _. IsReset x v)
    unfolding attach
    attach-IsReset =
        Ensures-bind
          (failing-Ensures "error getting the state of Volume: " _ s (
            Yields_of
              (reads x.reading.begin_error x.reading.commit_error x.reading.rollback_error s)))
          λ st s1 h1.
            Ensures-bind
              (Yields_case {Q = λ _ _. Unit {0}}
                (failing "error creating Volume: " (new to_bytes text_of x.opening x.disk vp)) s1
                λ _ _. tt)
              λ v s2 h2. resets x downtime st v s2 (over st h1.0)
      where
        over :
            (st : State)
            → st ≡ current_state (open_store s)
            → is_in_downtime_range st downtime x.clock ≡ true
        over st e =
            ap (λ u. is_in_downtime_range u downtime x.clock) (e ∙ no_state s fresh)
            ∙ empty_is_late downtime x.clock late

    -- Where `RemoveAll` removes directories and no file is created in one that is not there,
    -- `CreateFile` returns an error on a volume that has just been attached for the first time: it has
    -- no state, which passes for one that is older than the downtime, so that it is reset. The clock
    -- is past the zero time by more than the downtime, the file of
    -- the ID, as `Remove` renames it, is not above the directory of the temporary files, and the fresh
    -- name of the temporary file is one in it.
    pub attach_then_create :
        (v : Volume) (Gone : p.Fs → Type 0)
        → (attach to_bytes text_of x vp downtime s).0 ≡ ok v
        → HasDirs Gone v.temp_dir
        → starts_with v.temp_dir (tmp_name (join v.root "id")) ≡ false
        → (j : Inputs) (key : String) (content : Bytes) (rep ttl : ℤ) (ca : Time)
        → (split_path (join v.temp_dir j.file_uuid)).0 ≡ v.temp_dir <> "/"
        → (e : Error) × ((create_file j key content rep ttl ca v).0 ≡ err e)
    attach_then_create v Gone attached d apart j key content rep ttl ca inside =
        let h = Ensures_ok attach-IsReset v attached in
        let u = h.before_reset in
        let temp : v.temp_dir ≡ u.temp_dir =
          ap (λ (w : Volume). w.temp_dir) h.left ∙ with_temp_dir x.resetting x.later_disk u in
        let root : v.root ≡ u.root =
          ap (λ (w : Volume). w.root) h.left ∙ with_root x.resetting x.later_disk u in
        let (e, failed) =
          reset_then_create x.resetting x.later_disk u Gone (rw (← temp) d)
            (rw (← temp, ← root) apart) h.returned j key content rep ttl ca (rw (← temp) inside) in
        (e, ap (λ w. (create_file j key content rep ttl ca w).0) h.left ∙ failed)

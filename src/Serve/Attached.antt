-- ===== src/Serve/Attached.antt =====
-- What a node finds in a volume that it has attached.
use rebost.Prelude.{ℕ, String, ◌≡◌, ◌≢◌, refl, Bool, true, false, none, ℤ}
use rebost.Exec.{Result, ok, err, panic}
use rebost.Exec.Ensures.{Post, Ensures, Ensures-if, Ensures-bind}
use rebost.Platform.{Platform, Bytes, IsBolt}
use rebost.State.{State, is_in_downtime_range}
use rebost.BoltDb.Uow.{Store, open_store}
use rebost.Volume.Create.Stores.{current_state}
use rebost.Volume.Defs.{Volume, Inputs}
use rebost.Volume.Reset.{Disk, reset}
use rebost.Volume.Reset.Sizes.{AllCompile}
use rebost.Volume.Outcomes.{reset-Ensures}
use rebost.Serve.{Starting, after_reset, reset_volume, reset_if_old, attach}
use rebost.Serve.Opened.{IsSame, IsSame-trans, failing-Ensures, reads, IsOpened, new-IsOpened}

module _ ⦃p : Platform⦄ where
  -- No file and no key.
  pub record IsCleared (s : Store) : Type 0 where
    pub files : (sig : String) → p.get s.files sig ≡ none
    pub idxkeys : (k : String) → p.get s.idxkeys k ≡ none

  abbrev pub AttachOutcome : Bool → Store → Store → Type 0
  AttachOutcome true s s' = IsCleared s'
  AttachOutcome false s s' = IsSame s s'

  pub record IsAttached (over : Bool) (s : Store) (v : Volume) (s' : Store) : Type 0 where
    pub held : v.store ≡ s'
    pub outcome : AttachOutcome over s s'

  emptied :
      IsBolt
      → (i : Inputs) (disk : Disk) (v : Volume) (s s' : Store) → AllCompile disk.partitions
      → Ensures (reset_volume i disk v) s' (IsAttached true s)
  emptied b i disk v s s' compile = record {
    at = seen (reset i disk u).0 (reset i disk u).1 (reset-Ensures b i disk u compile).at;
  }
    where
      u : Volume
      u = record v { store = s' }

      seen :
          (r : Result (Unit {0})) (w : Volume)
          → Post
              (λ _ (x : Volume).
                ((sig : String) → p.get x.files sig ≡ none)
                × ((k : String) → p.get x.idxkeys k ≡ none))
              r
              w
          → Post (IsAttached true s) (after_reset r w) w.store
      seen (ok _) w h = record { held = refl; outcome = record { files = h.0; idxkeys = h.1 } }
      seen (err e) w h = tt
      seen panic w h = h

  reset_if_old-IsAttached :
      IsBolt
      → (x : Starting) (downtime : ℤ) (st : State) (s : Store) (v : Volume) (s' : Store)
      → IsOpened s v s'
      → AllCompile x.later_disk.partitions
      → Ensures
          (reset_if_old x downtime st v)
          s'
          (IsAttached (is_in_downtime_range st downtime x.clock) s)
  unfolding reset_if_old
  reset_if_old-IsAttached b x downtime st s v s' h compile =
      Ensures-if (is_in_downtime_range st downtime x.clock)
        (λ e. rw e (
          failing-Ensures "error resetting the Volume due to downtime: " _ s'
            (emptied b x.resetting x.later_disk v s s' compile)))
        λ e. rw e (record { at = record { held = h.held; outcome = h.same } })

  -- Attaching a volume does not panic, where the size is parsed with no panic and every mountpoint,
  -- with `.*` after it, is a regular expression, when the volume is opened and when it is reset. Where
  -- it returns no error, the volume has no file and no key if more than the downtime has passed since its state was
  -- last updated, and else just the files and the keys that it had.
  pub attach-Ensures :
      IsBolt
      → (to_bytes : String → Result ℕ) (text_of : Bytes → String) (x : Starting) (vp : String)
        (downtime : ℤ) (s : Store)
      → ((size : String) → to_bytes size ≢ panic)
      → AllCompile x.disk.partitions
      → AllCompile x.later_disk.partitions
      → Ensures
          (attach to_bytes text_of x vp downtime)
          s
          (IsAttached (is_in_downtime_range (current_state (open_store s)) downtime x.clock) s)
  unfolding attach
  attach-Ensures b to_bytes text_of x vp downtime s calm compile compile_later =
      Ensures-bind
        (failing-Ensures "error getting the state of Volume: " _ s
          (reads x.reading.begin_error x.reading.commit_error x.reading.rollback_error s))
        λ st s1 h1.
          Ensures-bind
            (failing-Ensures "error creating Volume: " _ s1
              (new-IsOpened b to_bytes text_of x.opening x.disk vp s1 calm compile))
            λ v s2 h2. rw (← h1.0) (
              reset_if_old-IsAttached b x downtime st s v s2
                (record { held = h2.held; same = IsSame-trans h1.1 h2.same }) compile_later)

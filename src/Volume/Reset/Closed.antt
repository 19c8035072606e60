-- ===== src/Volume/Reset/Closed.antt =====
-- After `Reset` the directories of a volume are gone, and `CreateFile` cannot create its temporary file.
use rebost.Prelude.{
  String, ◌<>◌, ◌≡◌, refl, sym, ◌∙◌, ap, false, Option, none, some, [], ◌∷◌, ℤ, inl, inr,
  Option-cases,
}
use text.Mathlib.Text.{starts_with}
use rebost.Exec.{Error, ok, err, check, ◌>>◌}
use rebost.Exec.Ensures.{Yields, Yields_of, Yields_case, Ensures-bind, Ensures_weaken, Ensures_ok}
use rebost.Platform.{Platform, Time, Bytes}
use rebost.File.{join}
use rebost.FsUow.{
  Action, Tracker, tmp_name, tracked_remove, tracked_remove_all, note_remove, note_rollback,
  run_actions,
}
use rebost.BoltDb.Repositories.{
  Tx, recreate_bucket, delete_all_files, delete_all_keys, delete_all_volume_indexes,
  delete_all_replicas, delete_all_states,
}
use rebost.BoltDb.Uow.{open_store}
use rebost.Volume.Defs.{Volume, Inputs, tracked, in_uow}
use rebost.Volume.Create.{written, split_path, create_file}
use rebost.Volume.Reset.{Disk, calculate_size, renew_id, create_id, ignore_error, reset_tx, reset}
use rebost.Volume.Reset.Effects.{recreated, ignored}
use rebost.Volume.Reset.Measures.{state-Keeps}
use rebost.Volume.Outcomes.{in_uow-Ensures}

module _ ⦃p : Platform⦄ where
  -- A file system with directories, where `Gone fs` says that `dir` is none: `RemoveAll` removes it, no
  -- operation on files makes it, but for a rename to a path that it begins with, and no file is created
  -- in it.
  pub record HasDirs (Gone : p.Fs → Type 0) (dir : String) : Type 0 where
    pub removes : (fs : p.Fs) → (p.remove_all fs dir).0 ≡ none → Gone (p.remove_all fs dir).1
    pub remove : (fs : p.Fs) (n : String) → Gone fs → Gone (p.remove fs n).1
    pub rename :
        (fs : p.Fs) (a b : String) → starts_with dir b ≡ false → Gone fs → Gone (p.rename fs a b).1
    pub store : (fs : p.Fs) (n : String) (c : Bytes) → Gone fs → Gone (p.store fs n c).1
    pub refuses :
        (fs : p.Fs) (n : String) (c : Bytes)
        → (split_path n).0 ≡ dir <> "/"
        → Gone fs
        → (e : Error) × ((p.store fs n c).0 ≡ some e)

  module _ (Gone : p.Fs → Type 0) (dir : String) (d : HasDirs Gone dir) where
    -- No action is noted.
    record IsClear (t : Tx) : Type 0 where
      pub rollback : t.tracker.rollback_actions ≡ []
      pub room : t.tracker.room ≡ 0

    record IsGone (t : Tx) : Type 0 where
      pub clear : IsClear t
      pub gone : Gone t.tracker.fs

    -- What the unit of work leaves: the commit actions keep `Gone`.
    record Ends (t : Tx) : Type 0 where
      pub gone : Gone t.tracker.fs
      pub actions : (tmp : String) × (t.tracker.commit_actions ≡ Action.remove tmp ∷ [])

    emptied :
        (P : Tx → Type 0) (name : String) (f : Tx → Tx) (t : Tx)
        → P (f t)
        → Yields (check (recreate_bucket name) >> λ u. (ok tt, f u)) t (λ _ t'. P t')
    emptied P name f t h = Ensures_weaken (Yields_of (recreated name f t)) λ _ t' e. rw e h

    done :
        (f : Tracker → Option Error × Tracker) (t : Tx)
        → Yields
            (tracked f)
            t
            (λ _ t'. (t' ≡ record t { tracker = (f t.tracker).1 }) × ((f t.tracker).0 ≡ none))
    done f t = elim (Option-cases (f t.tracker).0) [
      | inl e ↦ record { at = rw e (refl, refl) }
      | inr (x, e) ↦ record { at = rw e tt }
    ]

    removed :
        (name : String) (t : Tx)
        → IsClear t
        → Yields (tracked (tracked_remove_all name)) t (λ _ t'. IsClear t')
    unfolding tracked_remove_all
    removed name t h =
        Ensures_weaken (done (tracked_remove_all name) t)
          λ _ t' e. rw e.0 (record { rollback = h.rollback; room = h.room })

    dir_removed :
        (t : Tx) → IsClear t → Yields (tracked (tracked_remove_all dir)) t (λ _ t'. IsGone t')
    unfolding tracked_remove_all
    dir_removed t h = Ensures_weaken (done (tracked_remove_all dir) t) λ _ t' e. rw e.0 (record {
      clear = record { rollback = h.rollback; room = h.room };
      gone = d.removes t.tracker.fs e.1;
    })

    id_removed :
        (name : String) (t : Tx)
        → starts_with dir (tmp_name name) ≡ false
        → IsGone t
        → Yields (tracked (tracked_remove name)) t (λ _ t'. Ends t')
    unfolding tracked_remove note_remove note_rollback
    id_removed name t apart h = Ensures_weaken (done (tracked_remove name) t) λ _ t' e.
        rw e.0 (record {
          gone = d.rename t.tracker.fs name (tmp_name name) apart h.gone;
          actions = (tmp_name name, rw (h.clear.rollback, h.clear.room) refl);
        })

    renewed :
        (uuid id_path : String) (t : Tx)
        → Ends t
        → Yields (renew_id uuid id_path) t (λ _ t'. Ends t')
    unfolding renew_id create_id
    renewed uuid id_path t h = record {
      at = record { gone = d.store t.tracker.fs id_path _ h.gone; actions = h.actions };
    }

    measured :
        (disk : Disk) (now : Time) (ts : ℤ) (t : Tx)
        → Ends t
        → Yields (ignore_error (calculate_size disk now ts)) t (λ _ t'. Ends t')
    measured disk now ts t h = record {
      at =
          ignored (λ _. Unit {0}) (λ _. Ends) (calculate_size disk now ts t).0
            (calculate_size disk now ts t).1
            (Yields_case {Q = λ _ _. Unit {0}} (calculate_size disk now ts) t (λ _ _. tt)).at
            ((state-Keeps Ends (λ u c k. record { gone = k.gone; actions = k.actions }) disk now
                ts).at
              t h);
    }

    cleared : {u u' : Tx} → u'.tracker ≡ u.tracker → IsClear u → IsClear u'
    cleared e k = record { rollback = rw e k.rollback; room = rw e k.room }

    reset_tx-Ends :
        (i : Inputs) (disk : Disk) (root file_dir : String) (ts : ℤ) (t : Tx)
        → starts_with dir (tmp_name (join root "id")) ≡ false
        → IsClear t
        → Yields (reset_tx i disk root file_dir dir ts) t (λ _ t'. Ends t')
    unfolding reset_tx delete_all_files delete_all_keys delete_all_replicas
        delete_all_volume_indexes delete_all_states
    reset_tx-Ends i disk root file_dir ts t apart h =
        Ensures-bind (emptied IsClear "files" _ t (cleared refl h)) λ _ t1 h1.
          Ensures-bind (emptied IsClear "idxkeys" _ t1 (cleared refl h1)) λ _ t2 h2.
            Ensures-bind (emptied IsClear "replica" _ t2 (cleared refl h2)) λ _ t3 h3.
              Ensures-bind (emptied IsClear "idxvolumes" _ t3 (cleared refl h3)) λ _ t4 h4.
                Ensures-bind (removed file_dir t4 h4) λ _ t5 h5.
                  Ensures-bind (dir_removed t5 h5) λ _ t6 h6.
                    Ensures-bind
                      (emptied IsGone "state" _ t6
                        (record { clear = cleared refl h6.clear; gone = h6.gone }))
                      λ _ t7 h7. Ensures-bind (id_removed (join root "id") t7 apart h7) λ _ t8 h8.
                        Ensures-bind (renewed i.file_uuid (join root "id") t8 h8)
                          λ _ t9 h9. measured disk i.now ts t9 h9

    ran :
        (tmp : String) (f : p.Fs) → (run_actions (Action.remove tmp ∷ []) f).1 ≡ (p.remove f tmp).1
    unfolding run_actions
    ran tmp f = elim (Option-cases (p.remove f tmp).0) [
      | inl e ↦ rw (e, run_actions) refl
      | inr (x, e) ↦ rw (e, run_actions) refl
    ]

    committed :
        (t : Tx) (fs : p.Fs)
        → Ends t
        → run_actions t.tracker.commit_actions t.tracker.fs ≡ (none, fs)
        → Gone fs
    committed t fs h e =
        let (tmp, only) = h.actions in
        let same : (p.remove t.tracker.fs tmp).1 ≡ fs =
          sym (ran tmp t.tracker.fs)
          ∙ ap (λ actions. (run_actions actions t.tracker.fs).1) (sym only)
          ∙ ap (λ (o : Option Error × p.Fs). o.1) e in
        rw (← same) (d.remove t.tracker.fs tmp h.gone)

  same_dir : (i : Inputs) (disk : Disk) (v : Volume) → (reset i disk v).1.temp_dir ≡ v.temp_dir
  unfolding reset in_uow
  same_dir i disk v = refl

  module _ (i : Inputs) (disk : Disk) (v : Volume) (Gone : p.Fs → Type 0)
      (d : HasDirs Gone v.temp_dir)
      (apart : starts_with v.temp_dir (tmp_name (join v.root "id")) ≡ false) where
    reset-Gone : Yields (reset i disk) v (λ _ v'. Gone v'.fs)
    unfolding reset
    reset-Gone = record {
      at =
          (Ensures_weaken
            (in_uow-Ensures i (reset_tx i disk v.root v.file_dir v.temp_dir v.total_size) v (
              reset_tx-Ends Gone v.temp_dir d i disk v.root v.file_dir v.total_size
                (open_store v.store) apart (record { rollback = refl; room = refl })))
            λ _ w (t, h, c). committed Gone v.temp_dir d t w.fs h c.fs).at;
    }

    -- Where `RemoveAll` removes directories, and no file is created in a directory that is not there,
    -- `CreateFile` returns an error after `Reset` has returned none: the directory of the temporary
    -- files is gone. The file of the ID, as `Remove` renames it, is not above that directory, and the
    -- fresh name of the temporary file is one in it.
    pub reset_then_create :
        (reset i disk v).0 ≡ ok tt
        → (j : Inputs) (key : String) (content : Bytes) (rep ttl : ℤ) (ca : Time)
        → (split_path (join v.temp_dir j.file_uuid)).0 ≡ v.temp_dir <> "/"
        → (e : Error) × ((create_file j key content rep ttl ca (reset i disk v).1).0 ≡ err e)
    unfolding create_file
    reset_then_create returned j key content rep ttl ca inside =
        let v' = (reset i disk v).1 in
        let (e, refused) =
          d.refuses v'.fs (join v.temp_dir j.file_uuid) (written j content) inside
            (Ensures_ok reset-Gone tt returned) in
        let stopped : (p.store v'.fs (join v'.temp_dir j.file_uuid) (written j content)).0
            ≡ some e =
          ap (λ n. (p.store v'.fs (join n j.file_uuid) (written j content)).0) (same_dir i disk v)
          ∙ refused in
        (e, rw stopped refl)

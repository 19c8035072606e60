-- ===== src/Volume/Leftover.antt =====
-- What `CreateFile` leaves where the content does not fit.
use rebost.Prelude.{String, ◌≡◌, ◌≢◌, refl, ◌∙◌, false, none, some, ℤ, pos, length, eq_refl}
use rebost.Exec.{Error, Result, err, check, of_error}
use rebost.Exec.Returns.{bind-ok}
use rebost.Platform.{Platform, Time, Bytes, IsAfero}
use rebost.State.{use_size}
use rebost.File.{join, path, file_path}
use rebost.FsUow.{new_tracker}
use rebost.BoltDb.Repositories.{Tx, find_file}
use rebost.BoltDb.Uow.{write, open_store}
use rebost.BoltDb.Uow.Transactions.{start_uow-err}
use rebost.Volume.Defs.{Volume, Inputs, in_uow, on_fs}
use rebost.Volume.Create.{
  hashed, written, split_path, create_file, new_file, creation_time, create_tx, claim_space,
  too_large,
}
use rebost.Volume.Create.Stores.{current_state}
use rebost.Volume.Contents.{create_tx-Leads}
use rebost.Volume.Outcomes.{with_fs}
use rebost.Volume.Liveness.{find_state_lem}
use rebost.Volume.ReadBack.{untouched_uow}

module _ ⦃p : Platform⦄ where
  -- An error, with the buckets as they were, and what was copied in the place of its file.
  pub record IsLeftover (i : Inputs) (content : Bytes) (r : Result (Unit {0})) (v v' : Volume)
      : Type 0 where
    pub error : Error
    pub returned : r ≡ err error
    pub same_db : v'.store.db ≡ v.store.db
    pub left : p.read v'.fs (path v.file_dir (p.sha1 (hashed i content))) ≡ some (written i content)

  create_tx-too_large :
      (i : Inputs) (file_dir key : String) (rep ttl : ℤ) (ca : Time) (content : Bytes) (t : Tx)
      → p.get t.files (p.sha1 (hashed i content)) ≡ none
      → (use_size (current_state t) (pos (length (written i content)))).1 ≡ false
      → (create_tx i file_dir key rep ttl ca
          (new_file key (hashed i content) (written i content) rep ttl ca)
          t).0
        ≡ err too_large
  unfolding create_tx find_file claim_space
  create_tx-too_large i file_dir key rep ttl ca content t e full =
      rw (e, find_file) (rw (find_state_lem t, full) refl)

  module _ (a : IsAfero) (i : Inputs) (key : String) (content : Bytes) (rep ttl : ℤ) (ca : Time)
      (v : Volume) (absent : p.get v.idxkeys key ≡ none)
      (apart : join v.temp_dir i.file_uuid ≢ path v.file_dir (p.sha1 (hashed i content)))
      (unknown : p.get v.files (p.sha1 (hashed i content)) ≡ none)
      (full : (use_size (current_state (open_store v.store)) (pos (length (written i content)))).1
        ≡ false)
      (stat : i.stat_error ≡ none) where
    -- Where a content that is not stored does not fit, and its key stands for nothing, `CreateFile`
    -- returns an error and leaves the buckets as they were, and what was copied stays in the place of its
    -- file, with no entry. The three calls of the file system and `Stat` return no error, and the fresh
    -- name of the temporary file is not that place.
    pub create_file-IsLeftover :
        let tmp = join v.temp_dir i.file_uuid in
        let place = path v.file_dir (p.sha1 (hashed i content)) in
        let fs1 = (p.store v.fs tmp (written i content)).1 in
        let fs2 = (p.mkdir_all fs1 (split_path place).0).1 in
        (p.store v.fs tmp (written i content)).0 ≡ none
        → (p.mkdir_all fs1 (split_path place).0).0 ≡ none
        → (p.rename fs2 tmp place).0 ≡ none
        → IsLeftover i content
            (create_file i key content rep ttl ca v).0
            v
            (create_file i key content rep ttl ca v).1
    unfolding create_file file_path
    create_file-IsLeftover s m r =
        let tmp = join v.temp_dir i.file_uuid in
        let place = path v.file_dir (p.sha1 (hashed i content)) in
        let fs1 = (p.store v.fs tmp (written i content)).1 in
        let fs2 = (p.mkdir_all fs1 (split_path place).0).1 in
        let fs3 = (p.rename fs2 tmp place).1 in
        let made = creation_time i ca in
        let body =
          create_tx i v.file_dir key rep ttl made
            (new_file key (hashed i content) (written i content) rep ttl made) in
        let v3 = with_fs v fs3 in
        let moved : create_file i key content rep ttl ca v ≡ in_uow i write body v3 =
          bind-ok (on_fs (λ fs. p.store fs tmp (written i content))) _ v tt (rw s refl)
          ∙ bind-ok (check (of_error i.stat_error)) _ (with_fs v fs1) tt (rw stat refl)
          ∙ bind-ok (on_fs (λ fs. p.mkdir_all fs (split_path place).0)) _ (with_fs v fs1) tt
              (rw m refl)
          ∙ bind-ok (on_fs (λ fs. p.rename fs tmp place)) _ (with_fs v fs2) tt (rw r refl) in
        let kept : (in_uow i write body v3).1.fs ≡ fs3 = untouched_uow i body v3 (
          (create_tx-Leads (new_tracker fs3) key i v.file_dir rep ttl made
              (new_file key (hashed i content) (written i content) rep ttl made)).at
            (open_store v3.store) (record { same = refl; absent = absent })) in
        let (db, failed) = start_uow-err i.outcome write body v3.store too_large (
          create_tx-too_large i v.file_dir key rep ttl made content (open_store v3.store) unknown
            full) in
        let there : p.read fs3 place ≡ some (written i content) =
          a.read-rename fs2 tmp place place apart r
          ∙ rw (eq_refl place) (
              a.read-mkdir_all fs1 (split_path place).0 tmp
              ∙ a.read-store v.fs tmp (written i content) tmp s
              ∙ rw (eq_refl tmp) refl) in
        rw moved (record {
          error = failed.0;
          returned = unfold in_uow in failed.1;
          same_db = unfold in_uow in db;
          left = rw kept there;
        })

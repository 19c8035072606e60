-- ===== src/Volume/ReadBack.antt =====
-- A content that is stored under a new key is what `GetFile` returns for that key.
use rebost.Prelude.{
  ◌++◌, ◌+◌, length, leb, if◌then◌else◌, take_append, length-take, String, ◌≡◌, ◌≢◌, refl, ◌∙◌, ap,
  Option, none, some, ℤ, inl, inr, eq_refl, Option-cases,
}
use rebost.Exec.{Error, Result, ok, err, panic, Exec}
use rebost.Exec.Ensures.{Ensures, Ensures-bind, Ensures_ok, Ensures_state}
use rebost.Platform.{Platform, Time, Bytes, IsBolt, IsAfero}
use rebost.File.{join, path, file_path}
use rebost.FsUow.{new_tracker}
use rebost.BoltDb.Repositories.{Db, Tx}
use rebost.BoltDb.Uow.{write, Outcome, no_errors, open_store, close, begun, bolt_uow, start_uow}
use rebost.Volume.Defs.{Volume, Inputs, in_uow}
use rebost.Volume.Create.{
  hashed, written, split_path, create_tx, create_file, new_file, creation_time,
}
use rebost.Volume.Reads.{get_file}
use rebost.Volume.Invariant.{IsIndexed}
use rebost.Volume.Outcomes.{
  with_fs, stored_at, on_fs-Ensures, of_error-Ensures, create_file-Ensures,
}
use rebost.Volume.Contents.{IsUntouched, create_tx-Leads}
use rebost.Volume.RoundTrip.{settle_new, get_file_lem}

-- A prefix of the content: as much of it as was copied, and all of it where that is its length or more.
pub record IsCopy (i : Inputs) (content copy : Bytes) : Type 0 where
  pub rest : Bytes
  pub prefix : content ≡ copy ++ rest
  pub size :
      length copy
      ≡ (if leb (length content) (i.hashed + i.excess) then length content else i.hashed + i.excess)

module _ ⦃p : Platform⦄ where
  pub written-IsCopy : (i : Inputs) (content : Bytes) → IsCopy i content (written i content)
  written-IsCopy i content =
      let (rest, e) = take_append (i.hashed + i.excess) content in
      record { rest = rest; prefix = e; size = length-take (i.hashed + i.excess) content }

  close-tracker :
      (o : Outcome) (r : Result (Unit {0})) (db : Db) (t : Tx)
      → (close o write r db t).1.tracker ≡ t.tracker
  unfolding close
  close-tracker o (ok a) db t = elim (Option-cases o.commit_error) [
    | inl e ↦ rw e refl
    | inr (x, e) ↦ rw e refl
  ]
  close-tracker o (err e) db t = refl
  close-tracker o panic db t = elim (Option-cases o.commit_error) [
    | inl e ↦ rw e refl
    | inr (x, e) ↦ rw e refl
  ]

  begun-tracker :
      (x : Option Error) (o : Outcome) (body : Exec Tx (Unit {0})) (t : Tx)
      → (body t).1.tracker ≡ t.tracker
      → (begun x o write body t).1.tracker ≡ t.tracker
  unfolding begun
  begun-tracker none o body t h = close-tracker o (body t).0 t.db (body t).1 ∙ h
  begun-tracker (some e) o body t h = refl

  -- A unit of work whose body leaves the tracker as it was leaves the files as they were.
  pub untouched_uow :
      (i : Inputs) (body : Exec Tx (Unit {0})) (v : Volume)
      → IsUntouched (new_tracker v.fs) (body (open_store v.store)).1
      → (in_uow i write body v).1.fs ≡ v.fs
  unfolding in_uow start_uow bolt_uow
  untouched_uow i body v h =
      rw (begun-tracker i.outcome.begin_error i.outcome body (open_store v.store) h)
        (ap (λ (x : Result (Unit {0}) × p.Fs). x.1) (settle_new _ v.fs))

  -- What has reached the file is in its place, in the directory of the files.
  record HasContent (i : Inputs) (content : Bytes) (v v' : Volume) : Type 0 where
    pub stored :
        p.read v'.fs (path v.file_dir (p.sha1 (hashed i content))) ≡ some (written i content)
    pub same_dir : v'.file_dir ≡ v.file_dir

  module _ (a : IsAfero) (b : IsBolt) (i : Inputs) (key : String) (content : Bytes) (rep ttl : ℤ)
      (ca : Time) (v : Volume) (indexed : IsIndexed v) (absent : p.get v.idxkeys key ≡ none)
      (apart : join v.temp_dir i.file_uuid ≢ path v.file_dir (p.sha1 (hashed i content))) where
    moved :
        (fs1 : p.Fs)
        → let tmp = join v.temp_dir i.file_uuid in
          let place = path v.file_dir (p.sha1 (hashed i content)) in
          p.read fs1 tmp ≡ some (written i content)
          → (p.rename fs1 tmp place).0 ≡ none
          → p.read (p.rename fs1 tmp place).1 place ≡ some (written i content)
    moved fs1 c r =
        let place = path v.file_dir (p.sha1 (hashed i content)) in
        a.read-rename fs1 (join v.temp_dir i.file_uuid) place place apart r ∙ rw (eq_refl place) c

    content_at :
        (fs : p.Fs)
        → p.read fs (path v.file_dir (p.sha1 (hashed i content))) ≡ some (written i content)
        → let made = creation_time i ca in
          Ensures
            (in_uow i write (
              create_tx i v.file_dir key rep ttl made
                (new_file key (hashed i content) (written i content) rep ttl made)))
            (with_fs v fs)
            (λ _ v'. HasContent i content v v')
    content_at fs c =
        let made = creation_time i ca in
        let f = new_file key (hashed i content) (written i content) rep ttl made in
        let body = create_tx i v.file_dir key rep ttl made f in
        let v1 = with_fs v fs in
        let kept : (in_uow i write body v1).1.fs ≡ fs = untouched_uow i body v1 (
          (create_tx-Leads (new_tracker fs) key i v.file_dir rep ttl made f).at
            (open_store v1.store) (record { same = refl; absent = absent })) in
        Ensures_state (HasContent i content v) (stored_at b i key rep ttl made f v fs refl indexed)
          (record { stored = rw kept c; same_dir = unfold in_uow in refl })

    create_file-HasContent :
        Ensures (create_file i key content rep ttl ca) v (λ _ v'. HasContent i content v v')
    unfolding create_file file_path
    create_file-HasContent =
        let made = creation_time i ca in
        let f = new_file key (hashed i content) (written i content) rep ttl made in
        let tmp = join v.temp_dir i.file_uuid in
        let place = file_path f v.file_dir in
        record {
          at =
              (Ensures-bind (on_fs-Ensures (λ fs. p.store fs tmp (written i content)) v) λ _ v1 e1.
                Ensures-bind (of_error-Ensures i.stat_error v1) λ _ v2 e2.
                  Ensures-bind (on_fs-Ensures (λ fs. p.mkdir_all fs (split_path place).0) v2)
                    λ _ v3 e3.
                      Ensures-bind (on_fs-Ensures (λ fs. p.rename fs tmp place) v3) λ _ v4 e4.
                        let fs4 = (p.rename v3.fs tmp place).1 in
                        let same : v4 ≡ with_fs v fs4 =
                          e4.0
                          ∙ ap (λ u. with_fs u fs4)
                              (e3.0
                                ∙ ap (λ u. with_fs u (p.mkdir_all v2.fs (split_path place).0).1)
                                    (e2 ∙ e1.0)) in
                        let there : p.read v3.fs tmp ≡ some (written i content) =
                          ap (λ (u : Volume). p.read u.fs tmp) e3.0
                          ∙ a.read-mkdir_all v2.fs (split_path place).0 tmp
                          ∙ ap (λ (u : Volume). p.read u.fs tmp) (e2 ∙ e1.0)
                          ∙ a.read-store v.fs tmp (written i content) tmp e1.1
                          ∙ rw (eq_refl tmp) refl in
                        rw same (content_at fs4 (moved v3.fs there e4.1))).at;
        }

    -- After `CreateFile` returns no error for a key that stood for nothing, on a volume whose indexes
    -- agree, `GetFile` of that key returns what `io.Copy` has put in the file: the content where the
    -- copy has come to its end, and a prefix of it, with no error from either call, where the reader
    -- or the disk has failed before. The fresh name of the temporary file is not the file's place.
    pub create_then_get :
        (create_file i key content rep ttl ca v).0 ≡ ok tt
        → (j : Inputs) → j.outcome ≡ no_errors
        → ((get_file j key (create_file i key content rep ttl ca v).1).0 ≡ ok (written i content))
          × IsCopy i content (written i content)
    create_then_get done j e =
        let v' = (create_file i key content rep ttl ca v).1 in
        let c = Ensures_ok (create_file-Ensures b i key content rep ttl ca v indexed) tt done in
        let h = Ensures_ok create_file-HasContent tt done in
        (
          get_file_lem j key (p.sha1 (hashed i content)) (written i content) v' e
              (rw (c.idxkeys, eq_refl key) refl) (rw h.same_dir h.stored),
          written-IsCopy i content,
        )

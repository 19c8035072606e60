-- ===== src/Serve/Opened.antt =====
-- `New` of a volume, and the reading of its state, leave its files and keys.
use rebost.Prelude.{
  ℕ, String, ◌≡◌, ◌≢◌, refl, ◌∙◌, ap, Option, none, some, List, [], ◌∷◌, ℤ, inl, inr, Option-cases,
}
use rebost.Exec.{Error, Result, ok, err, panic, Exec, check, prefixed}
use rebost.Exec.Ensures.{PostOr, EnsuresOr, Ensures, Ensures-bind, Ensures_weaken, Ensures_state}
use rebost.Platform.{Platform, Bytes, IsBolt}
use rebost.File.{join}
use rebost.BoltDb.Repositories.{Db, find_state}
use rebost.BoltDb.Uow.{read, write, Store, open_store, start_uow, bolt_uow, begun, close}
use rebost.FsUow.{settle, run_actions}
use rebost.BoltDb.Uow.Transactions.{start_uow-Ensures}
use rebost.Volume.Create.Stores.{current_state}
use rebost.Volume.Liveness.{find_state_lem}
use rebost.Volume.Defs.{Volume, Inputs}
use rebost.Volume.Reset.{Disk, text_bytes, calculate_size, create_id}
use rebost.Volume.Reset.Sizes.{AllCompile, calculate_size-Ensures}
use rebost.Volume.Reset.Measures.{state-Keeps}
use rebost.Volume.Start.{
  with_size, parse_root, split_colons, open_id, on_store_fs, make_dir, open_root, read_id,
}
use rebost.Volume.Start.Identity.{never_panics}
use rebost.Volume.Start
use rebost.Serve.{failing}

module _ ⦃p : Platform⦄ where
  -- The entries of the files and of the keys are the same.
  pub record IsSame (s s' : Store) : Type 0 where
    pub files : s'.files ≡ s.files
    pub idxkeys : s'.idxkeys ≡ s.idxkeys

  pub IsSame-trans : {s s1 s2 : Store} → IsSame s s1 → IsSame s1 s2 → IsSame s s2
  IsSame-trans h k = record { files = k.files ∙ h.files; idxkeys = k.idxkeys ∙ h.idxkeys }

  pub failing-Ensures :
      {A : Type 0} {X : Store → Type 0} {Q : A → Store → Type 0} (what : String) (m : Exec Store A)
      (s : Store)
      → EnsuresOr X m s Q
      → EnsuresOr X (failing what m) s Q
  failing-Ensures {A} {X} {Q} what m s h = record { at = told (m s).0 (m s).1 h.at }
    where
      told : (r : Result A) (s' : Store) → PostOr X Q r s' → PostOr X Q (prefixed what r) s'
      told (ok a) s' k = k
      told (err e) s' k = tt
      told panic s' k = k

  pub reads :
      (begin_error commit_error rollback_error : Option Error) (s : Store)
      → Ensures
          (start_uow
            (record {
              begin_error = begin_error;
              commit_error = commit_error;
              rollback_error = rollback_error;
            })
            read
            find_state)
          s
          (λ st s'. (st ≡ current_state (open_store s)) × IsSame s s')
  unfolding start_uow bolt_uow begun close settle run_actions
  reads none c none s = record {
    at = rw (find_state_lem (open_store s)) (refl, record { files = refl; idxkeys = refl });
  }
  reads none c (some e) s = record { at = rw (find_state_lem (open_store s)) tt }
  reads (some e) c r s = record { at = tt }

  made : (dir : String) (s : Store) → Ensures (make_dir dir) s (λ _ s'. IsSame s s')
  made dir s = elim (Option-cases (p.mkdir_all s.fs dir).0) [
    | inl e ↦ record { at = rw e (record { files = refl; idxkeys = refl }) }
    | inr (x, e) ↦ record { at = rw e tt }
  ]

  identified :
      (r : Result String) (s : Store) → r ≢ panic → Ensures (check r) s (λ _ s'. IsSame s s')
  identified (ok id) s calm = record { at = record { files = refl; idxkeys = refl } }
  identified (err e) s calm = record { at = tt }
  identified panic s calm = absurd (calm refl)

  named :
      (uuid : String) (text_of : Bytes → String) (id_path : String) (o : Option Bytes) (s : Store)
      → Ensures (on_store_fs λ fs. open_id uuid text_of id_path o fs) s (λ _ s'. IsSame s s')
  unfolding open_id create_id
  named uuid text_of id_path none s =
      elim (Option-cases (p.store s.fs id_path (text_bytes uuid)).0) [
        | inl e ↦ record { at = rw e (record { files = refl; idxkeys = refl }) }
        | inr (x, e) ↦ record { at = rw e tt }
      ]
  named uuid text_of id_path (some c) s = record {
    at = (identified (read_id text_of c) s (never_panics text_of c)).at;
  }

  measured :
      IsBolt
      → (i : Inputs) (disk : Disk) (ts : ℤ) (s : Store) → AllCompile disk.partitions
      → Ensures (start_uow i.outcome write (calculate_size disk i.now ts)) s (λ _ s'. IsSame s s')
  measured b i disk ts s compile =
      Ensures_weaken
        (start_uow-Ensures i.outcome (calculate_size disk i.now ts) s (
          Ensures_state (λ t. (t.files ≡ s.files) × (t.idxkeys ≡ s.idxkeys))
            (calculate_size-Ensures b disk i.now ts (open_store s) compile)
            ((state-Keeps (λ t. (t.files ≡ s.files) × (t.idxkeys ≡ s.idxkeys)) (λ t u h. h) disk
                i.now ts).at
              (open_store s) (refl, refl))))
        λ _ s' (t, h, c). record {
          files = ap (λ (x : Db). x.files) c.db ∙ h.0;
          idxkeys = ap (λ (x : Db). x.idxkeys) c.db ∙ h.1;
        }

  -- The volume holds the store, with the entries that it had.
  pub record IsOpened (s : Store) (v : Volume) (s' : Store) : Type 0 where
    pub held : v.store ≡ s'
    pub same : IsSame s s'

  at_path :
      (uuid : String) (text_of : Bytes → String) (id_path : String) (s : Store)
      → Ensures
          (on_store_fs λ fs. open_id uuid text_of id_path (p.read fs id_path) fs)
          s
          (λ _ s'. IsSame s s')
  at_path uuid text_of id_path s = record {
    at = (named uuid text_of id_path (p.read s.fs id_path) s).at;
  }

  labelled :
      (id : String) (s : Store)
      → Ensures (λ (u : Store). (ok (tt {0}), record u { id = id })) s (λ _ s'. IsSame s s')
  labelled id s = record { at = record { files = refl; idxkeys = refl } }

  module _ (root : String) (ts : ℤ) where
    finished :
        (s s' : Store)
        → IsSame s s'
        → Ensures
            (λ (u : Store). (
              ok (record {
                file_dir = join root "file";
                temp_dir = join root "tmps";
                root = root;
                total_size = ts;
                store = u;
              }),
              u,
            ))
            s'
            (IsOpened s)
    finished s s' h = record { at = record { held = refl; same = h } }

    open_root-IsOpened :
        IsBolt
        → (text_of : Bytes → String) (i : Inputs) (disk : Disk) (s : Store)
        → AllCompile disk.partitions
        → Ensures (open_root text_of i disk root ts) s (IsOpened s)
    unfolding open_root
    open_root-IsOpened b text_of i disk s compile =
        Ensures-bind (made (join root "file") s) λ _ s1 h1.
          Ensures-bind (made (join root "tmps") s1) λ _ s2 h2.
            Ensures-bind (at_path i.file_uuid text_of (join root "id") s2) λ id s3 h3.
              Ensures-bind (labelled id s3) λ _ s4 h4.
                Ensures-bind (measured b i disk ts s4 compile) λ _ s5 h5.
                  finished s s5
                    (IsSame-trans h1 (IsSame-trans h2 (IsSame-trans h3 (IsSame-trans h4 h5))))

  pub new-IsOpened :
      IsBolt
      → (to_bytes : String → Result ℕ) (text_of : Bytes → String) (i : Inputs) (disk : Disk)
        (vp : String) (s : Store)
      → ((size : String) → to_bytes size ≢ panic)
      → AllCompile disk.partitions
      → Ensures (Start.new to_bytes text_of i disk vp) s (IsOpened s)
  unfolding Start.new parse_root
  new-IsOpened b to_bytes text_of i disk vp s calm compile =
      Ensures-bind (parsed (split_colons vp))
        λ r s1 same. rw same (open_root-IsOpened r.0 r.1 b text_of i disk s compile)
    where
      sized :
          (dir : String) (r : Result ℕ)
          → r ≢ panic
          → Ensures (check (with_size dir r)) s (λ _ s'. s' ≡ s)
      sized dir (ok n) c = record { at = refl }
      sized dir (err e) c = record { at = tt }
      sized dir panic c = absurd (c refl)

      parsed :
          (parts : List String) → Ensures (check (parse_root to_bytes vp parts)) s (λ _ s'. s' ≡ s)
      parsed [] = record { at = refl }
      parsed (d ∷ []) = record { at = refl }
      parsed (d ∷ size ∷ rest) = sized d (to_bytes size) (calm size)

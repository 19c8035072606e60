-- ===== src/Volume/Outcomes.antt =====
-- What `CreateFile`, `DeleteFile` and `Reset` leave in the store of a volume where they return no
-- error. The store is seen as the next unit of work finds it.
use rebost.Prelude.{
  List, without, String, ◌≡◌, refl, ◌∙◌, ap, Option, [], ◌∷◌, ℤ, none, some, inl, inr, Option-cases,
}
use rebost.Exec.{Result, ok, err, panic, Exec, of_error, check}
use rebost.Exec.Ensures.{PostOr, EnsuresOr, Ensures, Ensures-bind, Ensures_weaken}
use rebost.Platform.{Platform, Time, Bytes, IsBolt}
use rebost.File.{File, join, file_path}
use rebost.BoltDb.Repositories.{Db, Tx}
use rebost.BoltDb.Uow.{write, Store, open_store, start_uow}
use rebost.BoltDb.Uow.Transactions.{IsCommitted, start_uow-Ensures}
use rebost.Volume.Defs.{Volume, Inputs, on_fs, in_uow}
use rebost.Volume.Create.{
  hashed, written, split_path, create_tx, create_file, new_file, creation_time,
}
use rebost.Volume.Create.Stores.{SpaceOf, IsCreated, create_tx-Ensures}
use rebost.Volume.Delete.{delete_tx, delete_file_op}
use rebost.Volume.Delete.Removes.{SpaceLeft, IsDeleted, delete_tx-Ensures}
use rebost.Volume.Reset.{Disk, reset}
use rebost.Volume.Reset.Sizes.{AllCompile}
use rebost.Volume.Reset.Effects.{reset_tx-Ensures}
use rebost.Volume.Invariant.{IsIndexed}

module _ ⦃p : Platform⦄ where
  along :
      {S T A : Type 0} (C : Type 0) (Q : A → T → Type 0) (g : S → T) (r : Result A) (s : S)
      → PostOr (λ _. C) (λ a s'. Q a (g s')) r s
      → PostOr (λ _. C) Q r (g s)
  along C Q g (ok a) s h = h
  along C Q g (err e) s h = tt
  along C Q g panic s h = h

  pub in_uow-Ensures :
      {A C : Type 0} {Q : A → Tx → Type 0} (i : Inputs) (body : Exec Tx A) (v : Volume)
      → EnsuresOr (λ _. C) body (open_store v.store) Q
      → EnsuresOr
          (λ _. C)
          (in_uow i write body)
          v
          (λ a v'. (t : Tx) × Q a t × IsCommitted t v'.store)
  unfolding in_uow
  in_uow-Ensures {C} {Q} i body v h = record {
    at =
        along C (λ a v'. (t : Tx) × Q a t × IsCommitted t v'.store) (λ s. record v { store = s })
          (start_uow i.outcome write body v.store).0 (start_uow i.outcome write body v.store).1
          (start_uow-Ensures i.outcome body v.store h).at;
  }

  abbrev pub with_fs : Volume → p.Fs → Volume
  with_fs v fs = record v { store = record v.store { fs = fs } }

  pub on_fs-Ensures :
      (f : p.Fs → Option String × p.Fs) (v : Volume)
      → Ensures (on_fs f) v (λ _ v'. (v' ≡ with_fs v (f v.fs).1) × ((f v.fs).0 ≡ none))
  on_fs-Ensures f v = elim (Option-cases (f v.fs).0) [
    | inl e ↦ record { at = rw e (refl, refl) }
    | inr (x, e) ↦ record { at = rw e tt }
  ]

  pub of_error-Ensures :
      (e : Option String) (v : Volume) → Ensures (check (of_error e)) v (λ _ v'. v' ≡ v)
  of_error-Ensures none v = record { at = refl }
  of_error-Ensures (some x) v = record { at = tt }

  space_seen :
      (o : Option File) (size : ℤ) (t t1 : Tx) (s s1 : Store)
      → t.states ≡ s.states
      → s1.states ≡ t1.states
      → SpaceOf o size t t1
      → SpaceOf o size (open_store s) (open_store s1)
  space_seen none size t t1 s s1 e e1 h = rw (← e, e1) h
  space_seen (some d) size t t1 s s1 e e1 h = rw (← e, e1) h

  seen_afterwards :
      (key : String) (f : File) (s s1 : Store) (fs : p.Fs) (t1 : Tx)
      → IsCommitted t1 s1
      → IsCreated key f (open_store (record s { fs = fs })) t1
      → IsCreated key f (open_store s) (open_store s1)
  seen_afterwards key f s s1 fs t1 c h = record {
    consistent = rw c.db h.consistent;
    idxkeys = rw c.db h.idxkeys;
    space =
        space_seen (p.get s.files f.signature) f.size (open_store (record s { fs = fs })) t1 s s1
          refl (ap (λ (x : Db). x.states) c.db) h.space;
    id = c.id ∙ h.id;
  }

  pub stored_at :
      IsBolt
      → (i : Inputs) (key : String) (rep ttl : ℤ) (ca : Time) (f : File) (v : Volume) (fs : p.Fs)
      → f.keys ≡ key ∷ []
      → IsIndexed v
      → Ensures
          (in_uow i write (create_tx i v.file_dir key rep ttl ca f))
          (with_fs v fs)
          (λ _ v'. IsCreated key f (open_store v.store) (open_store v'.store))
  stored_at b i key rep ttl ca f v fs keys h =
      Ensures_weaken
        (in_uow-Ensures i (create_tx i v.file_dir key rep ttl ca f) (with_fs v fs)
          (create_tx-Ensures b i v.file_dir key rep ttl ca f _ keys h))
        λ _ v' (t, r, c). seen_afterwards key f v.store v'.store fs t c r

  -- Storing a file panics on no volume whose indexes agree. Where it returns no error, its key stands
  -- for the hash of what was copied, every other key for what it stood for, and one that is not
  -- yet stored fits and has its size taken from the space.
  pub create_file-Ensures :
      IsBolt
      → (i : Inputs) (key : String) (content : Bytes) (rep ttl : ℤ) (ca : Time) (v : Volume)
      → IsIndexed v
      → Ensures (create_file i key content rep ttl ca) v (λ _ v'.
        IsCreated key
          (new_file key (hashed i content) (written i content) rep ttl (creation_time i ca))
          (open_store v.store)
          (open_store v'.store))
  unfolding create_file
  create_file-Ensures b i key content rep ttl ca v h =
      let made = creation_time i ca in
      let f = new_file key (hashed i content) (written i content) rep ttl made in
      let tmp = join v.temp_dir i.file_uuid in
      let place = file_path f v.file_dir in
      record {
        at =
            (Ensures-bind (on_fs-Ensures (λ fs. p.store fs tmp (written i content)) v) λ _ v1 e1.
              Ensures-bind (of_error-Ensures i.stat_error v1) λ _ v2 e2.
                Ensures-bind (on_fs-Ensures (λ fs. p.mkdir_all fs (split_path place).0) v2)
                  λ _ v3 e3.
                    Ensures-bind (on_fs-Ensures (λ fs. p.rename fs tmp place) v3) λ _ v4 e4.
                      rw (e4.0, e3.0, e2, e1.0) (stored_at b i key rep ttl made f v _ refl h)).at;
      }

  left_seen :
      (ks : List String) (size : ℤ) (t t1 : Tx) (s : Store)
      → s.states ≡ t1.states
      → SpaceLeft ks size t t1
      → SpaceLeft ks size t (open_store s)
  left_seen [] size t t1 s e h = rw e h
  left_seen (k ∷ ks) size t t1 s e h = rw e h

  -- Deleting a key panics on no volume whose indexes agree. Where it returns no error, the key stood
  -- for a file, now stands for nothing, and the file has lost the key, or is gone with its last key
  -- and its size is given back.
  pub delete_file_op-Ensures :
      IsBolt
      → (i : Inputs) (key : String) (v : Volume) → IsIndexed v
      → Ensures
          (delete_file_op i key)
          v
          (λ _ v'. IsDeleted key (open_store v.store) (open_store v'.store))
  unfolding delete_file_op
  delete_file_op-Ensures b i key v h = record {
    at =
        (Ensures_weaken
          (in_uow-Ensures i (delete_tx v.file_dir key) v
            (delete_tx-Ensures b v.file_dir key (open_store v.store) h))
          λ _ v' (t, r, c). record {
            consistent = rw c.db r.consistent;
            idxkeys = rw c.db r.idxkeys;
            sig = r.sig;
            file = r.file;
            stood_for = r.stood_for;
            held = r.held;
            files = rw c.db r.files;
            space =
                left_seen (without key r.file.keys) r.file.size (open_store v.store) t v'.store
                  (ap (λ (x : Db). x.states) c.db) r.space;
            id = c.id ∙ r.id;
          }).at;
  }

  -- Resetting panics on no volume, where every mountpoint is a regular expression, and where it returns
  -- no error there is no file and no key left.
  pub reset-Ensures :
      IsBolt
      → (i : Inputs) (disk : Disk) (v : Volume) → AllCompile disk.partitions
      → Ensures (reset i disk) v (λ _ v'.
        ((sig : String) → p.get v'.files sig ≡ none) × ((k : String) → p.get v'.idxkeys k ≡ none))
  unfolding reset
  reset-Ensures b i disk v compile = record {
    at =
        (Ensures_weaken
          (in_uow-Ensures i _ v (
            reset_tx-Ensures b i disk v.root v.file_dir v.temp_dir v.total_size (open_store v.store)
              compile))
          λ _ v' (t, r, c). (
            λ sig. rw (c.db, r.files) (b.get-empty sig),
            λ k. rw (c.db, r.idxkeys) (b.get-empty k),
          )).at;
  }

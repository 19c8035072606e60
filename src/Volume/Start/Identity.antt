-- ===== src/Volume/Start/Identity.antt =====
-- A volume keeps its ID from one start to the next.
use rebost.Prelude.{
  String, ◌≡◌, refl, sym, ◌∙◌, ap, Option, none, some, ℤ, inl, inr, Option-cases, eq_refl, Bool,
  true, false, ◌≢◌, Bool-cases, length, ltb,
}
use rebost.Exec.{Error, Result, ok, err, panic, check}
use rebost.Exec.Ensures.{Yields, Yields_case, Ensures-bind, Ensures_weaken, Ensures_ok}
use rebost.Platform.{Platform, Bytes, IsBolt, IsAfero}
use rebost.File.{join}
use rebost.FsUow.{Tracker, new_tracker, run_actions}
use rebost.BoltDb.Uow.{write, Store, open_store, start_uow}
use rebost.BoltDb.Uow.Transactions.{start_uow-Ensures}
use rebost.Volume.Defs.{Volume, Inputs}
use rebost.Volume.Reset.{Disk, text_bytes, calculate_size, create_id}
use rebost.Volume.Reset.Measures.{state-Keeps}
use rebost.Volume.Start.{read_id, open_id, on_store_fs, make_dir, open_root}

ok_inj : {x y : String} → ok x ≡ ok y → x ≡ y
ok_inj e = cc e

abbrev panics : Result String → Bool
panics (ok id) = false
panics (err e) = false
panics panic = true

read_id_calm : (text_of : Bytes → String) (c : Bytes) → panics (read_id text_of c) ≡ false
unfolding read_id
read_id_calm text_of c = elim (Bool-cases (ltb (length c) 36)) [
  | inl e ↦ rw e refl
  | inr e ↦ rw e refl
]

pub never_panics : (text_of : Bytes → String) (c : Bytes) → read_id text_of c ≢ panic
never_panics text_of c e =
    let same : panics (read_id text_of c) ≡ true = ap panics e in cc (same, read_id_calm text_of c)

module _ ⦃p : Platform⦄ where
  make_dir-Ensures :
      IsAfero
      → (dir : String) (s : Store)
      → Yields (make_dir dir) s (λ _ s'. (n : String) → p.read s'.fs n ≡ p.read s.fs n)
  make_dir-Ensures a dir s = elim (Option-cases (p.mkdir_all s.fs dir).0) [
    | inl e ↦ record { at = rw e (λ n. a.read-mkdir_all s.fs dir n) }
    | inr (x, e) ↦ record { at = rw e tt }
  ]

  -- The file under `id_path` holds the ID, and is the one that was there, if there was one.
  pub record HasId (text_of : Bytes → String) (id_path id : String) (s s' : Store) : Type 0 where
    pub content : Bytes
    pub found : p.read s'.fs id_path ≡ some content
    pub reads : read_id text_of content ≡ ok id
    pub kept : (c : Bytes) → p.read s.fs id_path ≡ some c → c ≡ content

  size_uow-Ensures :
      (i : Inputs) (disk : Disk) (ts : ℤ) (s : Store)
      → Yields
          (start_uow i.outcome write (calculate_size disk i.now ts))
          s
          (λ _ s'. (s'.fs ≡ s.fs) × (s'.id ≡ s.id))
  unfolding run_actions
  size_uow-Ensures i disk ts s =
      Ensures_weaken
        (start_uow-Ensures i.outcome (calculate_size disk i.now ts) s (
          Yields_case {Q = λ _ t. (t.tracker ≡ new_tracker s.fs) × (t.id ≡ s.id)}
            (calculate_size disk i.now ts) (open_store s)
            λ _ _.
              ((state-Keeps (λ t. (t.tracker ≡ new_tracker s.fs) × (t.id ≡ s.id)) (λ t b h. h) disk
                  i.now ts).at
                (open_store s) (refl, refl))))
        λ _ s' (t, h, c). (
          sym (
              ap (λ (o : Option Error × p.Fs). o.1)
                (sym (ap (λ (u : Tracker). run_actions u.commit_actions u.fs) h.0) ∙ c.fs)),
          c.id ∙ h.1,
        )

  module _ (a : IsAfero) (text_of : Bytes → String) (i : Inputs) (disk : Disk) (root : String)
      (ts : ℤ) (decoded : read_id text_of (text_bytes i.file_uuid) ≡ ok i.file_uuid) where
    read_back :
        (c : Bytes) (s : Store) (r : Result String)
        → p.read s.fs (join root "id") ≡ some c
        → read_id text_of c ≡ r
        → Yields (check r) s (λ id s'. HasId text_of (join root "id") id s s')
    read_back c s (ok id) e h = record {
      at = record { content = c; found = e; reads = h; kept = λ c' e'. cc (e, e') };
    }
    read_back c s (err x) e h = record { at = tt }
    read_back c s panic e h = absurd (never_panics text_of c h)

    named :
        (id : String) (s : Store)
        → Yields
            (λ (u : Store). (ok (tt {0}), record u { id = id }))
            s
            (λ _ s'. s' ≡ record s { id = id })
    named id s = record { at = refl }

    finished :
        (s s' : Store)
        → HasId text_of (join root "id") s'.id s s'
        → Yields
            (λ (u : Store). (
              ok (record {
                file_dir = join root "file";
                temp_dir = join root "tmps";
                root = root;
                total_size = ts;
                store = u;
              }),
              u,
            ))
            s'
            (λ (v : Volume) u. (v.store ≡ u) × HasId text_of (join root "id") u.id s u)
    finished s s' h = record { at = (refl, h) }

    opened :
        (s : Store) (o : Option Bytes)
        → p.read s.fs (join root "id") ≡ o
        → Yields
            (on_store_fs λ fs. open_id i.file_uuid text_of (join root "id") o fs)
            s
            (λ id s'. HasId text_of (join root "id") id s s')
    unfolding open_id create_id
    opened s none e =
        elim (Option-cases (p.store s.fs (join root "id") (text_bytes i.file_uuid)).0) [
          | inl done ↦ record {
            at = rw done (record {
              content = text_bytes i.file_uuid;
              found =
                  a.read-store s.fs (join root "id") (text_bytes i.file_uuid) (join root "id") done
                  ∙ rw (eq_refl (join root "id")) refl;
              reads = decoded;
              kept = λ c there. absurd (cc (e, there));
            });
          }
          | inr (x, failed) ↦ record { at = rw failed tt }
        ]
    opened s (some c) e = record { at = (read_back c s (read_id text_of c) e refl).at }

    open_id-Ensures :
        (s : Store)
        → Yields
            (on_store_fs
              λ fs. open_id i.file_uuid text_of (join root "id") (p.read fs (join root "id")) fs)
            s
            (λ id s'. HasId text_of (join root "id") id s s')
    open_id-Ensures s = record { at = (opened s (p.read s.fs (join root "id")) refl).at }

    open_root-Ensures :
        (s : Store)
        → Yields
            (open_root text_of i disk root ts)
            s
            (λ v s'. (v.store ≡ s') × HasId text_of (join root "id") s'.id s s')
    unfolding open_root
    open_root-Ensures s = Ensures-bind (make_dir-Ensures a (join root "file") s) λ _ s1 e1.
        Ensures-bind (make_dir-Ensures a (join root "tmps") s1) λ _ s2 e2.
          Ensures-bind (open_id-Ensures s2) λ id s3 h. Ensures-bind (named id s3) λ _ s4 e4.
            Ensures-bind (size_uow-Ensures i disk ts s4) λ _ s5 e5.
              let same : p.read s5.fs (join root "id") ≡ p.read s3.fs (join root "id") =
                ap (λ fs. p.read fs (join root "id")) e5.0
                ∙ ap (λ (u : Store). p.read u.fs (join root "id")) e4 in
              finished s s5 (record {
                content = h.content;
                found = same ∙ h.found;
                reads = h.reads ∙ sym (ap ok (e5.1 ∙ ap (λ (u : Store). u.id) e4));
                kept = λ c there. h.kept c (e2 (join root "id") ∙ e1 (join root "id") ∙ there);
              })

  -- A volume that is opened, and opened again from what that left on the disk, has the ID that it
  -- had, whatever fresh ID is at hand, where the text of a UUID is read back from its bytes.
  pub open_root-same_id :
      IsAfero
      → IsBolt
      → (text_of : Bytes → String) (i j : Inputs) (disk later : Disk) (root : String) (ts ts' : ℤ)
        (s : Store) (v w : Volume)
      → read_id text_of (text_bytes i.file_uuid) ≡ ok i.file_uuid
      → read_id text_of (text_bytes j.file_uuid) ≡ ok j.file_uuid
      → (open_root text_of i disk root ts s).0 ≡ ok v
      → (open_root text_of j later root ts' (open_root text_of i disk root ts s).1).0 ≡ ok w
      → w.id ≡ v.id
  open_root-same_id a b text_of i j disk later root ts ts' s v w di dj e e' =
      let s1 = (open_root text_of i disk root ts s).1 in
      let s2 = (open_root text_of j later root ts' s1).1 in
      let first = Ensures_ok (open_root-Ensures a text_of i disk root ts di s) v e in
      let second = Ensures_ok (open_root-Ensures a text_of j later root ts' dj s1) w e' in
      let same : first.1.content ≡ second.1.content = second.1.kept first.1.content first.1.found in
      let ids : ok s1.id ≡ ok s2.id =
        sym first.1.reads ∙ ap (read_id text_of) same ∙ second.1.reads in
      ap (λ (u : Store). u.id) second.0 ∙ sym (ok_inj ids) ∙ sym (ap (λ (u : Store). u.id) first.0)

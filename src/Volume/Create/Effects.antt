-- ===== src/Volume/Create/Effects.antt =====
-- What the steps of `CreateFile` leave in the buckets of files and of keys.
use rebost.Prelude.{
  String, ◌==◌, ◌≡◌, refl, sym, ◌∙◌, ap, ◌≢◌, false, none, some, contains, ◌||◌, ℤ, pos, eqb_ℤ,
  ltb_ℤ, int_sub, inl, inr, Bool-cases, Option-cases, test_of_ne,
}
use rebost.Exec.Ensures.{Ensures, Ensures-pure, Ensures-if, Ensures-bind, Ensures_weaken}
use rebost.Platform.{Platform, Time, IsBolt}
use rebost.File.{File}
use rebost.BoltDb.Repositories.{Tx}
use rebost.BoltDb.Steps.{
  IsFrame, IsFrame-refl, IsFrame-trans, find_key-Ensures, put_file-Ensures, put_key-Ensures,
  find_ttl-Ensures, put_ttl-Ensures, create_replica-Ensures,
}
use rebost.Catalog.{update, get-put}
use rebost.Catalog.Consistency.{
  IsConsistent, lists, lists_of_indexed, add_key-IsConsistent, move_key-IsConsistent,
}
use rebost.Volume.Defs.{Inputs}
use rebost.Volume.Create.{release_old, index_key, index_ttl, queue_replica, store_rest}
use rebost.Volume.Create.Releases.{IsReleased, release_key-Ensures}

module _ ⦃p : Platform⦄ where
  pub index_ttl-Ensures :
      (ttl : ℤ) (f : File) (t : Tx) → Ensures (index_ttl ttl f) t (λ _ t'. IsFrame t t')
  unfolding index_ttl
  index_ttl-Ensures ttl f t =
      Ensures-if (eqb_ℤ ttl (pos 0)) (λ _. Ensures-pure tt t (IsFrame-refl t))
        λ _.
          Ensures-bind (find_ttl-Ensures _ t)
            λ o t1 fr. Ensures_weaken (put_ttl-Ensures _ t1) λ _ t2 fr2. IsFrame-trans fr fr2

  pub queue_replica-Ensures :
      (i : Inputs) (key : String) (f : File) (rep ttl : ℤ) (ca : Time) (t : Tx)
      → Ensures (queue_replica i key f rep ttl ca) t (λ _ t'. IsFrame t t')
  unfolding queue_replica
  queue_replica-Ensures i key f rep ttl ca t =
      elim (Bool-cases (ltb_ℤ (int_sub rep (pos 1)) (pos 1))) [
        | inl e ↦ record { at = rw e (IsFrame-refl t) }
        | inr e ↦ record { at = rw e ((create_replica-Ensures _ _ t).at) }
      ]

  index_key-Ensures :
      IsBolt
      → (key : String) (f : File) (t : Tx)
      → Ensures
          (index_key key f)
          t
          (λ _ t'. t' ≡ record t { db = record t.db { idxkeys = p.put t.idxkeys key f.signature } })
  unfolding index_key
  index_key-Ensures b key f t =
      Ensures-bind (put_key-Ensures b (record { key = key; value = f.signature }) t)
        λ o t1 e. Ensures-pure tt t1 e

  -- The new file is there, and nothing but the entry of its key is missing.
  record IsReady (key sig : String) (t t' : Tx) : Type 0 where
    pub consistent : IsConsistent (p.get t'.files) (update (p.get t'.idxkeys) key sig)
    pub idxkeys : update (p.get t'.idxkeys) key sig ≡ update (p.get t.idxkeys) key sig
    pub states : t'.states ≡ t.states
    pub id : t'.id ≡ t.id

  -- The key stands for the new signature, and the other keys for what they stood for.
  pub record IsStored (key sig : String) (t t' : Tx) : Type 0 where
    pub consistent : IsConsistent (p.get t'.files) (p.get t'.idxkeys)
    pub idxkeys : p.get t'.idxkeys ≡ update (p.get t.idxkeys) key sig
    pub states : t'.states ≡ t.states
    pub id : t'.id ≡ t.id

  abbrev with_file : File → Tx → Tx
  with_file f t = record t { db = record t.db { files = p.put t.files f.signature f } }

  module _ (b : IsBolt) (key : String) (f : File) (t : Tx)
      (c : IsConsistent (p.get t.files) (p.get t.idxkeys))
      (listed : (j : String)
        → contains f.keys j ≡ (lists (p.get t.files f.signature) j || key == j))
      (fresh : lists (p.get t.files f.signature) key ≡ false) where
    new-IsReady : p.get t.idxkeys key ≡ none → IsReady key f.signature t (with_file f t)
    new-IsReady e = record {
      consistent = rw (get-put b t.files f.signature f) (add_key-IsConsistent c key f e listed);
      idxkeys = refl;
      states = refl;
      id = refl;
    }

    moved-IsReady :
        (s : String) (d : File) (t' : Tx)
        → p.get t.idxkeys key ≡ some s
        → p.get t.files s ≡ some d
        → s ≢ f.signature
        → IsReleased key s d (with_file f t) t'
        → IsReady key f.signature t t'
    moved-IsReady s d t' ik fs other r = record {
      consistent =
          rw (r.files, r.idxkeys f.signature, get-put b t.files f.signature f)
            (move_key-IsConsistent key s d f c ik fs other listed);
      idxkeys = r.idxkeys f.signature;
      states = r.states;
      id = r.id;
    }

    release_old-Ensures :
        (file_dir : String)
        → Ensures (release_old file_dir key) (with_file f t) (λ _ t'. IsReady key f.signature t t')
    unfolding release_old
    release_old-Ensures file_dir = Ensures-bind (find_key-Ensures key (with_file f t)) λ o t1 e.
        elim (Option-cases (p.get t.idxkeys key)) [
          | inl n ↦ rw (e.0, e.1, n) (Ensures-pure tt (with_file f t) (new-IsReady n))
          | inr (s, ik) ↦
              let (d, fs, h) = c.indexed key s ik in
              let other : s ≢ f.signature = λ q. cc (lists_of_indexed c key s ik, fresh, q) in
              rw (e.0, e.1, ik)
                (Ensures_weaken
                  (release_key-Ensures b file_dir key (record { key = key; value = s }) d
                    (with_file f t)
                    (b.get-put t.files f.signature f s
                      ∙ rw (test_of_ne _ _ (λ q. other (sym q))) fs)
                    (c.signed s d fs) h)
                  (λ _ t2 r. moved-IsReady s d t2 ik fs other r))
        ]

    stored :
        (t2 t3 t' : Tx)
        → IsReady key f.signature t t2
        → t3 ≡ record t2 { db = record t2.db { idxkeys = p.put t2.idxkeys key f.signature } }
        → IsFrame t3 t'
        → IsStored key f.signature t t'
    stored t2 t3 t' r e fr =
        let indexed : p.get t'.idxkeys ≡ update (p.get t2.idxkeys) key f.signature =
          ap p.get (fr.idxkeys ∙ ap (λ (u : Tx). u.idxkeys) e)
          ∙ get-put b t2.idxkeys key f.signature in
        let kept : t'.files ≡ t2.files = fr.files ∙ ap (λ (u : Tx). u.files) e in
        record {
          consistent = rw (kept, indexed) r.consistent;
          idxkeys = indexed ∙ r.idxkeys;
          states = fr.states ∙ ap (λ (u : Tx). u.states) e ∙ r.states;
          id = fr.id ∙ ap (λ (u : Tx). u.id) e ∙ r.id;
        }

    pub store_rest-Ensures :
        (i : Inputs) (file_dir : String) (rep ttl : ℤ) (ca : Time)
        → Ensures (store_rest i file_dir key rep ttl ca f) t (λ _ t'. IsStored key f.signature t t')
    unfolding store_rest
    store_rest-Ensures i file_dir rep ttl ca = Ensures-bind (put_file-Ensures f t) λ _ t1 e1.
        rw e1 (
          Ensures-bind (release_old-Ensures file_dir) λ _ t2 r.
            Ensures-bind (index_key-Ensures b key f t2) λ _ t3 e3.
              Ensures-bind (index_ttl-Ensures ttl f t3) λ _ t4 fr4.
                Ensures_weaken (queue_replica-Ensures i key f rep ttl ca t4)
                  λ _ t5 fr5. stored t2 t3 t5 r e3 (IsFrame-trans fr4 fr5))

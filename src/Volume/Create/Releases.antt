-- ===== src/Volume/Create/Releases.antt =====
-- What `CreateFile` leaves of the file that its key stood for before.
use rebost.Prelude.{
  String, ◌≡◌, refl, sym, ◌∙◌, ap, true, Option, some, List, [], ◌∷◌, contains, without, fun_ext,
  arith, inl, inr, Option-cases,
}
use rebost.Exec.{Exec, crash}
use rebost.Exec.Ensures.{Ensures, Ensures-bind, Ensures_weaken}
use rebost.Platform.{Platform, IsBolt}
use rebost.File.{File, path}
use rebost.Index.{IdxKey}
use rebost.FsUow.{Tracker, tracked_remove}
use rebost.BoltDb.Repositories.{Db, Tx}
use rebost.BoltDb.Steps.{
  find_file-Ensures, put_file-Ensures, delete_file-Ensures, delete_key-Ensures,
}
use rebost.Catalog.{Lookup, update, erase, drop_key, get-put, get-delete}
use rebost.Volume.Defs.{tracked}
use rebost.Volume.Create.{release_left, release_key}

module _ ⦃p : Platform⦄ where
  pub tracked-Ensures :
      (f : Tracker → Option String × Tracker) (t : Tx)
      → Ensures (tracked f) t (λ _ t'. (t'.db ≡ t.db) × (t'.id ≡ t.id))
  tracked-Ensures f t = elim (Option-cases (f t.tracker).0) [
    | inl e ↦ record { at = rw e (refl, refl) }
    | inr (x, e) ↦ record { at = rw e tt }
  ]

  -- The files lose the key `key` of `d`, and the other keys stand for what they stood for.
  pub record IsReleased (key sig : String) (d : File) (t t' : Tx) : Type 0 where
    pub files : p.get t'.files ≡ drop_key (p.get t.files) sig key d
    pub idxkeys : (x : String) → update (p.get t'.idxkeys) key x ≡ update (p.get t.idxkeys) key x
    pub states : t'.states ≡ t.states
    pub id : t'.id ≡ t.id

  update-erase : (I : Lookup String) (k x : String) → update (erase I k) k x ≡ update I k x
  update-erase I k x = fun_ext λ j. ground arith

  release_left-Ensures :
      IsBolt
      → (file_dir key : String) (ik : IdxKey) (d : File) (ls : List String) (t : Tx)
      → d.signature ≡ ik.value
      → without key d.keys ≡ ls
      → Ensures (release_left file_dir key ik d ls) t (λ _ t'. IsReleased key ik.value d t t')
  unfolding release_left drop_key
  release_left-Ensures b file_dir key ik d [] t sg w =
      Ensures-bind (delete_file-Ensures ik.value t) λ _ t1 e1.
        Ensures-bind (tracked-Ensures (tracked_remove (path file_dir ik.value)) t1) λ _ t2 e2.
          Ensures_weaken (delete_key-Ensures key t2) λ _ t3 e3. record {
            files =
                ap (λ (u : Tx). p.get u.files) e3
                ∙ ap (λ (x : Db). p.get x.files) e2.0
                ∙ ap (λ (u : Tx). p.get u.files) e1
                ∙ get-delete b t.files ik.value
                ∙ rw w;
            idxkeys = λ x.
                ap (λ (u : Tx). update (p.get u.idxkeys) key x) e3
                ∙ ap (λ I. update I key x) (get-delete b t2.idxkeys key)
                ∙ update-erase (p.get t2.idxkeys) key x
                ∙ ap (λ (y : Db). update (p.get y.idxkeys) key x) e2.0
                ∙ ap (λ (u : Tx). update (p.get u.idxkeys) key x) e1;
            states = ground arith;
            id = ground arith;
          }
  release_left-Ensures b file_dir key ik d (k ∷ ks) t sg w =
      Ensures_weaken (put_file-Ensures _ t) λ _ t1 e1. record {
        files = ap (λ (u : Tx). p.get u.files) e1 ∙ get-put b t.files _ _ ∙ rw (sg, w);
        idxkeys = λ x. ap (λ (u : Tx). update (p.get u.idxkeys) key x) e1;
        states = ground arith;
        id = ground arith;
      }

  -- A list that holds a text is not the empty one, on which the program panics.
  pub nonempty-Ensures :
      {m : Exec Tx (Unit {0})} {t : Tx} {Q : Unit {0} → Tx → Type 0} (ks : List String) (k : String)
      → contains ks k ≡ true
      → Ensures m t Q
      → Ensures (elim ks [ [] ↦ crash | _ ↦ m ]) t Q
  unfolding contains
  nonempty-Ensures [] k h e = cc
  nonempty-Ensures (x ∷ xs) k h e = e

  pub release_key-Ensures :
      IsBolt
      → (file_dir key : String) (ik : IdxKey) (d : File) (t : Tx) → p.get t.files ik.value ≡ some d
      → d.signature ≡ ik.value
      → contains d.keys key ≡ true
      → Ensures (release_key file_dir key ik) t (λ _ t'. IsReleased key ik.value d t t')
  unfolding release_key
  release_key-Ensures b file_dir key ik d t fs sg h =
      Ensures-bind (find_file-Ensures ik.value t) λ o t1 e.
        rw (e.0, sym e.1 ∙ fs)
          (nonempty-Ensures d.keys key h
            (release_left-Ensures b file_dir key ik d (without key d.keys) t sg refl))

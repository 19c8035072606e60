-- ===== src/Volume/Delete/Removes.antt =====
-- `deleteFile` inside its unit of work: the key stands for nothing afterwards, and the two indexes
-- agree.
use rebost.Prelude.{String, ◌≡◌, refl, sym, ◌∙◌, ap, true, some, List, [], ◌∷◌, without, ℤ, int_neg}
use rebost.Exec.Ensures.{Ensures, Ensures-bind, Ensures_weaken}
use rebost.Platform.{Platform, IsBolt}
use rebost.File.{File, path}
use rebost.Index.{IdxKey}
use rebost.State.{use_size}
use rebost.FsUow.{tracked_remove}
use rebost.BoltDb.Repositories.{Db, Tx, state_key}
use rebost.BoltDb.Steps.{
  must_find_key-Ensures, find_file-Ensures, put_file-Ensures, delete_file-Ensures,
  delete_key-Ensures,
}
use rebost.Catalog.{erase, drop_key, get-put, get-delete}
use rebost.Catalog.Consistency.{IsConsistent, drop_key-IsConsistent}
use rebost.Volume.Create.Releases.{tracked-Ensures, nonempty-Ensures}
use rebost.Volume.Create.Stores.{state_or_empty, current_state, claim_space-Ensures}
use rebost.Volume.Delete.{delete_left, delete_from, delete_tx}

module _ ⦃p : Platform⦄ where
  -- The last key of a file gives its space back.
  abbrev pub SpaceLeft : List String → ℤ → Tx → Tx → Type 0
  SpaceLeft [] size t t' =
      ((use_size (current_state t) (int_neg size)).1 ≡ true)
      × (p.get t'.states state_key ≡ some (use_size (current_state t) (int_neg size)).0)
  SpaceLeft (k ∷ ks) size t t' = t'.states ≡ t.states

  record IsDropped (key sig : String) (d : File) (t t' : Tx) : Type 0 where
    pub files : p.get t'.files ≡ drop_key (p.get t.files) sig key d
    pub idxkeys : t'.idxkeys ≡ t.idxkeys
    pub space : SpaceLeft (without key d.keys) d.size t t'
    pub id : t'.id ≡ t.id

  delete_left-Ensures :
      IsBolt
      → (file_dir key : String) (ik : IdxKey) (d : File) (ls : List String) (t : Tx)
      → d.signature ≡ ik.value
      → without key d.keys ≡ ls
      → Ensures (delete_left file_dir ik d ls) t (λ _ t'. IsDropped key ik.value d t t')
  unfolding delete_left drop_key
  delete_left-Ensures b file_dir key ik d [] t sg w =
      Ensures-bind (delete_file-Ensures ik.value t) λ _ t1 e1.
        Ensures-bind (tracked-Ensures (tracked_remove (path file_dir ik.value)) t1) λ _ t2 e2.
          Ensures_weaken (claim_space-Ensures b (int_neg d.size) t2) λ _ t3 c.
            let same : current_state t2 ≡ current_state t =
              ap (λ (x : Db). state_or_empty (p.get x.states state_key)) e2.0
              ∙ ap (λ (u : Tx). current_state u) e1 in
            record {
              files =
                  ap p.get c.files
                  ∙ ap (λ (x : Db). p.get x.files) e2.0
                  ∙ ap (λ (u : Tx). p.get u.files) e1
                  ∙ get-delete b t.files ik.value
                  ∙ rw w;
              idxkeys = c.idxkeys ∙ ap (λ (x : Db). x.idxkeys) e2.0 ∙ ap (λ (u : Tx). u.idxkeys) e1;
              space = rw (w, ← same) (c.fits, c.taken);
              id = c.id ∙ e2.1 ∙ ap (λ (u : Tx). u.id) e1;
            }
  delete_left-Ensures b file_dir key ik d (k ∷ ks) t sg w =
      Ensures_weaken (put_file-Ensures _ t) λ _ t1 e1. record {
        files = ap (λ (u : Tx). p.get u.files) e1 ∙ get-put b t.files _ _ ∙ rw (sg, w);
        idxkeys = ap (λ (u : Tx). u.idxkeys) e1;
        space = rw w (ap (λ (u : Tx). u.states) e1);
        id = ap (λ (u : Tx). u.id) e1;
      }

  pub record IsDeleted (key : String) (t t' : Tx) : Type 0 where
    pub consistent : IsConsistent (p.get t'.files) (p.get t'.idxkeys)
    pub idxkeys : p.get t'.idxkeys ≡ erase (p.get t.idxkeys) key
    pub sig : String
    pub file : File
    pub stood_for : p.get t.idxkeys key ≡ some sig
    pub held : p.get t.files sig ≡ some file
    pub files : p.get t'.files ≡ drop_key (p.get t.files) sig key file
    pub space : SpaceLeft (without key file.keys) file.size t t'
    pub id : t'.id ≡ t.id

  module _ (b : IsBolt) (file_dir key : String) (t : Tx)
      (c : IsConsistent (p.get t.files) (p.get t.idxkeys)) where
    space_of :
        (ls : List String) (size : ℤ) (t1 t2 : Tx)
        → t2.states ≡ t1.states
        → SpaceLeft ls size t t1
        → SpaceLeft ls size t t2
    space_of [] size t1 t2 e r = rw e r
    space_of (x ∷ xs) size t1 t2 e r = rw e r

    deleted :
        (s : String) (d : File) (t1 t2 : Tx)
        → p.get t.idxkeys key ≡ some s
        → p.get t.files s ≡ some d
        → IsDropped key s d t t1
        → t2 ≡ record t1 { db = record t1.db { idxkeys = p.delete t1.idxkeys key } }
        → IsDeleted key t t2
    deleted s d t1 t2 ik fs r e =
        let files : p.get t2.files ≡ drop_key (p.get t.files) s key d =
          ap (λ (u : Tx). p.get u.files) e ∙ r.files in
        let keys : p.get t2.idxkeys ≡ erase (p.get t.idxkeys) key =
          ap (λ (u : Tx). p.get u.idxkeys) e
          ∙ get-delete b t1.idxkeys key
          ∙ ap (λ m. erase (p.get m) key) r.idxkeys in
        record {
          consistent = rw (files, keys) (drop_key-IsConsistent c key s d ik fs);
          idxkeys = keys;
          sig = s;
          file = d;
          stood_for = ik;
          held = fs;
          files = files;
          space = space_of (without key d.keys) d.size t1 t2 (ap (λ (u : Tx). u.states) e) r.space;
          id = ap (λ (u : Tx). u.id) e ∙ r.id;
        }

    pub delete_tx-Ensures : Ensures (delete_tx file_dir key) t (λ _ t'. IsDeleted key t t')
    unfolding delete_tx delete_from
    delete_tx-Ensures = Ensures-bind (must_find_key-Ensures key t) λ ik t1 e1.
        let (d, fs, h) = c.indexed key ik.value e1.1 in
        rw e1.0 (
          Ensures-bind (find_file-Ensures ik.value t) λ o t2 e2.
            rw (e2.0, sym e2.1 ∙ fs)
              (nonempty-Ensures d.keys key h (
                Ensures-bind
                  (delete_left-Ensures b file_dir key ik d (without key d.keys) t
                    (c.signed ik.value d fs) refl)
                  λ _ t3 r.
                    Ensures_weaken (delete_key-Ensures key t3)
                      λ _ t4 e4. deleted ik.value d t3 t4 e1.1 fs r e4)))

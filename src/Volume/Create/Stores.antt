-- ===== src/Volume/Create/Stores.antt =====
-- `CreateFile` inside its unit of work: the key stands for the new content afterwards, and the two
-- indexes agree.
use rebost.Prelude.{
  String, ◌==◌, ◌≡◌, refl, sym, ◌∙◌, true, false, ◌||◌, Option, none, some, [], ◌∷◌, ◌++◌, contains,
  contains-append, fun_ext, arith, eq_iff, ℤ, inl, inr, Option-cases,
}
use rebost.Exec.Ensures.{
  Ensures, Ensures-pure, Ensures-raise, Ensures-if, Ensures-bind, Ensures_weaken,
}
use rebost.Platform.{Platform, Time, IsBolt}
use rebost.File.{File}
use rebost.State.{State, use_size, empty_state}
use rebost.BoltDb.Repositories.{Tx, find_state, update_state, state_key}
use rebost.BoltDb.Steps.{find_file-Ensures}
use rebost.Catalog.{update}
use rebost.Catalog.Consistency.{IsConsistent, lists}
use rebost.Volume.Defs.{Inputs}
use rebost.Volume.Create.{claim_space, store_file, create_tx}
use rebost.Volume.Create.Effects.{store_rest-Ensures}

abbrev pub state_or_empty : Option State → State
state_or_empty none = empty_state
state_or_empty (some s) = s

contains-singleton : (k j : String) → contains (k ∷ []) j ≡ (k == j)
unfolding contains
contains-singleton k j = ground arith

module _ ⦃p : Platform⦄ where
  -- What `State().Find` returns.
  abbrev pub current_state : Tx → State
  current_state t = state_or_empty (p.get t.states state_key)

  -- `size` bytes were free, and are taken.
  pub record IsClaimed (size : ℤ) (t t' : Tx) : Type 0 where
    pub files : t'.files ≡ t.files
    pub idxkeys : t'.idxkeys ≡ t.idxkeys
    pub id : t'.id ≡ t.id
    pub fits : (use_size (current_state t) size).1 ≡ true
    pub taken : p.get t'.states state_key ≡ some (use_size (current_state t) size).0

  pub update_state-Ensures :
      IsBolt
      → (s : State) (t : Tx)
      → Ensures (update_state s) t (λ _ t'.
        (t'.files ≡ t.files)
        × (t'.idxkeys ≡ t.idxkeys)
        × (t'.id ≡ t.id)
        × (p.get t'.states state_key ≡ some s))
  unfolding update_state
  update_state-Ensures b s t = elim (Option-cases (p.refuses state_key s)) [
    | inl e ↦ record {
      at = rw (e, update_state) (refl, refl, refl, b.get-put t.states state_key s state_key ∙ refl);
    }
    | inr (x, e) ↦ record { at = rw (e, update_state) tt }
  ]

  pub find_state-Ensures :
      (t : Tx) → Ensures find_state t (λ s t'. (t' ≡ t) × (s ≡ current_state t))
  unfolding find_state
  find_state-Ensures t = elim (Option-cases (p.get t.states state_key)) [
    | inl e ↦ record { at = rw (e, find_state) (refl, refl) }
    | inr (f, e) ↦ record { at = rw (e, find_state) (refl, refl) }
  ]

  pub claim_space-Ensures :
      IsBolt → (size : ℤ) (t : Tx) → Ensures (claim_space size) t (λ _ t'. IsClaimed size t t')
  unfolding claim_space
  claim_space-Ensures b size t = Ensures-bind (find_state-Ensures t) λ s t1 e. rw e.0 (
      Ensures-if (use_size s size).1
        (λ fits. Ensures_weaken (update_state-Ensures b (use_size s size).0 t) λ _ t2 u. record {
          files = u.0;
          idxkeys = u.1;
          id = u.2;
          fits = rw (← e.1) fits;
          taken = rw (← e.1) u.3;
        })
        (λ _. Ensures-raise _ t))

  -- A file is stored under `key`. Only a new content takes space.
  abbrev pub SpaceOf : Option File → ℤ → Tx → Tx → Type 0
  SpaceOf none size t t' =
      ((use_size (current_state t) size).1 ≡ true)
      × (p.get t'.states state_key ≡ some (use_size (current_state t) size).0)
  SpaceOf (some d) size t t' = t'.states ≡ t.states

  pub record IsCreated (key : String) (f : File) (t t' : Tx) : Type 0 where
    pub consistent : IsConsistent (p.get t'.files) (p.get t'.idxkeys)
    pub idxkeys : p.get t'.idxkeys ≡ update (p.get t.idxkeys) key f.signature
    pub space : SpaceOf (p.get t.files f.signature) f.size t t'
    pub id : t'.id ≡ t.id

  module _ (b : IsBolt) (i : Inputs) (file_dir key : String) (rep ttl : ℤ) (ca : Time) (f : File)
      (t : Tx) (keys : f.keys ≡ key ∷ []) (c : IsConsistent (p.get t.files) (p.get t.idxkeys)) where
    already_there :
        (d : File)
        → p.get t.files f.signature ≡ some d
        → contains d.keys key ≡ true
        → IsCreated key f t t
    already_there d e h = record {
      consistent = c;
      idxkeys = fun_ext λ j. ground (arith, eq_iff key j, c.owned f.signature key d e h);
      space = rw e refl;
      id = refl;
    }

    store_known :
        (d : File)
        → p.get t.files f.signature ≡ some d
        → contains d.keys key ≡ false
        → Ensures
            (store_file i file_dir key rep ttl ca (record d { keys = d.keys ++ key ∷ [] }))
            t
            (λ _ t'. IsCreated key f t t')
    unfolding store_file
    store_known d e h =
        let g : File = record d {
          keys = d.keys ++ key ∷ [];
          volume_ids = d.volume_ids ++ t.id ∷ [];
        } in
        let sig : d.signature ≡ f.signature = c.signed f.signature d e in
        let listed : (j : String)
            → contains g.keys j ≡ (lists (p.get t.files d.signature) j || key == j) =
          λ j. rw (sig, e, contains-append, contains-singleton) in
        record {
          at =
              (Ensures_weaken
                (store_rest-Ensures b key g t c listed (rw (sig, e) h) i file_dir rep ttl ca)
                (λ _ t' r. record {
                  consistent = r.consistent;
                  idxkeys = rw (← sig) r.idxkeys;
                  space = rw e r.states;
                  id = r.id;
                })).at;
        }

    store_new :
        p.get t.files f.signature ≡ none
        → (t1 : Tx) → IsClaimed f.size t t1
        → Ensures (store_file i file_dir key rep ttl ca f) t1 (λ _ t'. IsCreated key f t t')
    unfolding store_file
    store_new e t1 s =
        let g : File = record f { volume_ids = f.volume_ids ++ t1.id ∷ [] } in
        let empty : p.get t1.files f.signature ≡ none = rw (s.files, e) in
        let listed : (j : String)
            → contains g.keys j ≡ (lists (p.get t1.files f.signature) j || key == j) =
          λ j. rw (keys, empty, contains-singleton) in
        record {
          at =
              (Ensures_weaken
                (store_rest-Ensures b key g t1 (rw (s.files, s.idxkeys) c) listed (rw empty) i
                  file_dir rep ttl ca)
                (λ _ t' r. record {
                  consistent = r.consistent;
                  idxkeys = r.idxkeys ∙ rw s.idxkeys;
                  space = rw e (s.fits, rw r.states s.taken);
                  id = r.id ∙ s.id;
                })).at;
        }

    pub create_tx-Ensures :
        Ensures (create_tx i file_dir key rep ttl ca f) t (λ _ t'. IsCreated key f t t')
    unfolding create_tx
    create_tx-Ensures = Ensures-bind (find_file-Ensures f.signature t) λ o t1 e.
        elim (Option-cases (p.get t.files f.signature)) [
          | inl n ↦
              rw (e.0, sym e.1 ∙ n)
                (Ensures-bind (claim_space-Ensures b f.size t) λ _ t2 s. store_new n t2 s)
          | inr (d, fs) ↦
              rw (e.0, sym e.1 ∙ fs)
                (Ensures-if (contains d.keys key) (λ h. Ensures-pure tt t (already_there d fs h))
                  (λ h. store_known d fs h))
        ]

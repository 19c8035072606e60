-- ===== src/Volume/Contents.antt =====
-- The unit of work that stores a file under a key that stands for nothing touches no file on disk.
use rebost.Prelude.{
  String, ◌≡◌, Option, none, some, ◌++◌, [], ◌∷◌, contains, ℤ, pos, eqb_ℤ, ltb_ℤ, int_sub, inl, inr,
  if◌then◌else◌, Option-cases, Bool-cases,
}
use rebost.Exec.{Exec, pure, optional, ◌>>◌}
use rebost.Exec.Keeps.{Keeps, Keeps-bind, Keeps-if, Leads, lead_before, lead_after}
use rebost.Platform.{Platform, Time}
use rebost.File.{File}
use rebost.Index.{IdxTtl, IdxKey}
use rebost.Replica.{Replica}
use rebost.State.{State, use_size}
use rebost.FsUow.{Tracker}
use rebost.BoltDb.Repositories.{
  Tx, find_file, put_file, find_key, put_key, find_ttl, put_ttl, create_replica, find_state,
  update_state, state_key,
}
use rebost.BoltDb.Steps.{replica_refusal}
use rebost.Volume.Defs.{Inputs}
use rebost.Volume.Create.{
  claim_space, release_old, index_key, index_ttl, queue_replica, store_rest, store_file, create_tx,
}

module _ ⦃p : Platform⦄ where
  -- The tracker is `tracker`, and the key stands for nothing.
  pub record IsFresh (tracker : Tracker) (key : String) (t : Tx) : Type 0 where
    pub same : t.tracker ≡ tracker
    pub absent : p.get t.idxkeys key ≡ none

  abbrev pub IsUntouched : Tracker → Tx → Type 0
  IsUntouched tracker t = t.tracker ≡ tracker

  module _ (tracker : Tracker) (key : String) where
    put_file-Keeps : (f : File) → Keeps (IsFresh tracker key) (put_file f)
    unfolding put_file
    put_file-Keeps f = record {
      at = λ t h. elim (Option-cases (p.refuses f.signature f)) [
        | inl e ↦ rw (e, put_file) (record { same = h.same; absent = h.absent })
        | inr (x, e) ↦ rw (e, put_file) h
      ];
    }

    find_state-Keeps : Keeps (IsFresh tracker key) find_state
    unfolding find_state
    find_state-Keeps = record {
      at = λ t h. elim (Option-cases (p.get t.states state_key)) [
        | inl e ↦ rw (e, find_state) h
        | inr (s, e) ↦ rw (e, find_state) h
      ];
    }

    update_state-Keeps : (s : State) → Keeps (IsFresh tracker key) (update_state s)
    unfolding update_state
    update_state-Keeps s = record {
      at = λ t h. elim (Option-cases (p.refuses state_key s)) [
        | inl e ↦ rw (e, update_state) (record { same = h.same; absent = h.absent })
        | inr (x, e) ↦ rw (e, update_state) h
      ];
    }

    pub claim_space-Keeps : (size : ℤ) → Keeps (IsFresh tracker key) (claim_space size)
    unfolding claim_space
    claim_space-Keeps size = Keeps-bind find_state-Keeps λ s.
        Keeps-if (use_size s size).1 (update_state-Keeps (use_size s size).0)
          (record { at = λ t h. h })

    release_old-Leads :
        (file_dir : String)
        → Leads (IsFresh tracker key) (IsUntouched tracker) (release_old file_dir key)
    unfolding release_old
    release_old-Leads file_dir = record {
      at = λ t h. unfold find_key in rw (h.absent, find_key) h.same;
    }

  optional-Keeps : {A : Type 0} {P : Tx → Type 0} (m : Exec Tx A) → Keeps P m → Keeps P (optional m)
  optional-Keeps m k = record { at = k.at }

  module _ (tracker : Tracker) where
    put_key-Keeps : (ik : IdxKey) → Keeps (IsUntouched tracker) (put_key ik)
    unfolding put_key
    put_key-Keeps ik = record {
      at = λ t h. elim (Option-cases (p.refuses ik.key ik.value)) [
        | inl e ↦ rw (e, put_key) h
        | inr (x, e) ↦ rw (e, put_key) h
      ];
    }

    index_key-Keeps : (key : String) (f : File) → Keeps (IsUntouched tracker) (index_key key f)
    unfolding index_key
    index_key-Keeps key f =
        Keeps-bind
          (optional-Keeps (put_key (record { key = key; value = f.signature })) (put_key-Keeps _))
          λ _. record { at = λ t h. h }

    find_ttl-Keeps : (ea : Time) → Keeps (IsUntouched tracker) (find_ttl ea)
    unfolding find_ttl
    find_ttl-Keeps ea = record {
      at = λ t h. elim (Option-cases (p.get t.idxttls (p.format ea))) [
        | inl e ↦ rw (e, find_ttl) h
        | inr (x, e) ↦ rw (e, find_ttl) h
      ];
    }

    put_ttl-Keeps : (i : IdxTtl) → Keeps (IsUntouched tracker) (put_ttl i)
    unfolding put_ttl
    put_ttl-Keeps i = record {
      at = λ t h. elim (Option-cases (p.refuses (p.format i.expires_at) i.signatures)) [
        | inl e ↦ rw (e, put_ttl) h
        | inr (x, e) ↦ rw (e, put_ttl) h
      ];
    }

    index_ttl-Keeps : (ttl : ℤ) (f : File) → Keeps (IsUntouched tracker) (index_ttl ttl f)
    unfolding index_ttl
    index_ttl-Keeps ttl f =
        Keeps-if (eqb_ℤ ttl (pos 0)) (record { at = λ t h. h })
          (Keeps-bind (optional-Keeps (find_ttl _) (find_ttl-Keeps _)) λ o. put_ttl-Keeps _)

    create_replica-Keeps :
        (now : ℤ) (rp : Replica) → Keeps (IsUntouched tracker) (create_replica now rp)
    create_replica-Keeps now rp = record {
      at = λ t h. elim (Option-cases (replica_refusal now rp t)) [
        | inl e ↦ unfold create_replica replica_refusal in rw (e, create_replica) h
        | inr (x, e) ↦ unfold create_replica replica_refusal in rw (e, create_replica) h
      ];
    }

    queue_replica-Keeps :
        (i : Inputs) (key : String) (f : File) (rep ttl : ℤ) (ca : Time)
        → Keeps (IsUntouched tracker) (queue_replica i key f rep ttl ca)
    unfolding queue_replica
    queue_replica-Keeps i key f rep ttl ca = record {
      at = λ t h.
          (Keeps-if (ltb_ℤ (int_sub rep (pos 1)) (pos 1)) (record { at = λ t' h'. h' })
              (create_replica-Keeps i.nanos _)).at
            t h;
    }

  module _ (tracker : Tracker) (key : String) where
    same_of : (t : Tx) → IsFresh tracker key t → IsUntouched tracker t
    same_of t h = h.same

    store_rest-Leads :
        (i : Inputs) (file_dir : String) (rep ttl : ℤ) (ca : Time) (f : File)
        → Leads (IsFresh tracker key) (IsUntouched tracker) (store_rest i file_dir key rep ttl ca f)
    unfolding store_rest
    store_rest-Leads i file_dir rep ttl ca f =
        lead_before _ (put_file-Keeps tracker key f) same_of λ _.
          lead_after _ (release_old-Leads tracker key file_dir) λ _.
            Keeps-bind (index_key-Keeps tracker key f) λ _.
              Keeps-bind (index_ttl-Keeps tracker ttl f)
                λ _. queue_replica-Keeps tracker i key f rep ttl ca

    store_file-Leads :
        (i : Inputs) (file_dir : String) (rep ttl : ℤ) (ca : Time) (f : File)
        → Leads (IsFresh tracker key) (IsUntouched tracker) (store_file i file_dir key rep ttl ca f)
    unfolding store_file
    store_file-Leads i file_dir rep ttl ca f = record {
      at = λ t h. (store_rest-Leads i file_dir rep ttl ca _).at t h;
    }

    find_file-Keeps : (sig : String) → Keeps (IsFresh tracker key) (find_file sig)
    unfolding find_file
    find_file-Keeps sig = record { at = λ t h. h }

    create_found :
        (i : Inputs) (file_dir : String) (rep ttl : ℤ) (ca : Time) (f : File) (o : Option File)
        → Leads (IsFresh tracker key) (IsUntouched tracker) (elim o [
          | none ↦ do claim_space f.size; store_file i file_dir key rep ttl ca f
          | some d ↦
              if contains d.keys key
              then pure tt
              else store_file i file_dir key rep ttl ca (record d { keys = d.keys ++ key ∷ [] })
        ])
    create_found i file_dir rep ttl ca f none =
        lead_before _ (claim_space-Keeps tracker key f.size) same_of
          λ _. store_file-Leads i file_dir rep ttl ca f
    create_found i file_dir rep ttl ca f (some d) = elim (Bool-cases (contains d.keys key)) [
      | inl e ↦ rw e (record { at = same_of })
      | inr e ↦ rw e (store_file-Leads i file_dir rep ttl ca _)
    ]

    pub create_tx-Leads :
        (i : Inputs) (file_dir : String) (rep ttl : ℤ) (ca : Time) (f : File)
        → Leads (IsFresh tracker key) (IsUntouched tracker) (create_tx i file_dir key rep ttl ca f)
    unfolding create_tx
    create_tx-Leads i file_dir rep ttl ca f =
        lead_before _ (optional-Keeps (find_file f.signature) (find_file-Keeps f.signature)) same_of
          λ o. create_found i file_dir rep ttl ca f o

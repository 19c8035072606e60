-- ===== src/BoltDb/Steps.antt =====
-- What a repository call leaves behind where it succeeds, and which buckets it does not touch.
use rebost.Prelude.{
  ℤ, String, ◌≡◌, refl, Option, none, some, inl, inr, arith, Option-cases, ap, ◌∙◌, test_of_ne,
}
use rebost.Exec.{Error, not_found, optional}
use rebost.Exec.Ensures.{Ensures}
use rebost.Platform.{Platform, Time, IsBolt}
use rebost.File.{File}
use rebost.Index.{IdxKey, IdxTtl}
use rebost.Replica.{Replica}
use rebost.BoltDb.KeyGenerate.{decimal, next_key}
use rebost.BoltDb.Repositories.{
  Tx, find_file, put_file, delete_file, find_key, put_key, delete_key, find_ttl, put_ttl,
  create_replica,
}

-- A step that leaves the files, their keys, the size and the ID alone.
pub record IsFrame ⦃p : Platform⦄ (t t' : Tx) : Type 0 where
  pub files : t'.files ≡ t.files
  pub idxkeys : t'.idxkeys ≡ t.idxkeys
  pub states : t'.states ≡ t.states
  pub id : t'.id ≡ t.id

module _ ⦃p : Platform⦄ where
  pub IsFrame-refl : (t : Tx) → IsFrame t t
  IsFrame-refl t = record { files = refl; idxkeys = refl; states = refl; id = refl }

  pub IsFrame-trans : {t u v : Tx} → IsFrame t u → IsFrame u v → IsFrame t v
  IsFrame-trans f g = ground arith

  pub find_file-Ensures :
      (sig : String) (t : Tx)
      → Ensures (optional (find_file sig)) t (λ o t'. (t' ≡ t) × (p.get t.files sig ≡ o))
  unfolding find_file
  find_file-Ensures sig t = elim (Option-cases (p.get t.files sig)) [
    | inl e ↦ record { at = rw (e, find_file) (refl, refl) }
    | inr (f, e) ↦ record { at = rw (e, find_file) (refl, refl) }
  ]

  abbrev pub key_entry : String → Option String → Option IdxKey
  key_entry k none = none
  key_entry k (some v) = some (record { key = k; value = v })

  pub find_key-Ensures :
      (k : String) (t : Tx)
      → Ensures (optional (find_key k)) t (λ o t'. (t' ≡ t) × (o ≡ key_entry k (p.get t.idxkeys k)))
  unfolding find_key
  find_key-Ensures k t = elim (Option-cases (p.get t.idxkeys k)) [
    | inl e ↦ record { at = rw (e, find_key) (refl, refl) }
    | inr (f, e) ↦ record { at = rw (e, find_key) (refl, refl) }
  ]

  -- A call whose missing value is an error.
  pub must_find_key-Ensures :
      (k : String) (t : Tx)
      → Ensures (find_key k) t (λ ik t'. (t' ≡ t) × (p.get t.idxkeys k ≡ some ik.value))
  unfolding find_key
  must_find_key-Ensures k t = elim (Option-cases (p.get t.idxkeys k)) [
    | inl e ↦ record { at = rw (e, find_key) tt }
    | inr (s, e) ↦ record { at = rw (e, find_key) (refl, refl) }
  ]

  pub must_find_file-Ensures :
      (sig : String) (t : Tx)
      → Ensures (find_file sig) t (λ f t'. (t' ≡ t) × (p.get t.files sig ≡ some f))
  unfolding find_file
  must_find_file-Ensures sig t = elim (Option-cases (p.get t.files sig)) [
    | inl e ↦ record { at = rw (e, find_file) tt }
    | inr (f, e) ↦ record { at = rw (e, find_file) (refl, refl) }
  ]

  pub put_file-Ensures :
      (f : File) (t : Tx)
      → Ensures
          (put_file f)
          t
          (λ _ t'. t' ≡ record t { db = record t.db { files = p.put t.files f.signature f } })
  unfolding put_file
  put_file-Ensures f t = elim (Option-cases (p.refuses f.signature f)) [
    | inl e ↦ record { at = rw (e, put_file) refl }
    | inr (x, e) ↦ record { at = rw (e, put_file) tt }
  ]

  pub delete_file-Ensures :
      (sig : String) (t : Tx)
      → Ensures
          (delete_file sig)
          t
          (λ _ t'. t' ≡ record t { db = record t.db { files = p.delete t.files sig } })
  unfolding delete_file
  delete_file-Ensures sig t = record { at = refl }

  pub delete_key-Ensures :
      (k : String) (t : Tx)
      → Ensures
          (delete_key k)
          t
          (λ _ t'. t' ≡ record t { db = record t.db { idxkeys = p.delete t.idxkeys k } })
  unfolding delete_key
  delete_key-Ensures k t = record { at = refl }

  -- A refusal is not swallowed, since it never reads "not found".
  pub put_key-Ensures :
      IsBolt
      → (ik : IdxKey) (t : Tx)
      → Ensures
          (optional (put_key ik))
          t
          (λ _ t'. t' ≡ record t { db = record t.db { idxkeys = p.put t.idxkeys ik.key ik.value } })
  unfolding put_key
  put_key-Ensures b ik t = elim (Option-cases (p.refuses ik.key ik.value)) [
    | inl e ↦ record { at = rw (e, put_key) refl }
    | inr (x, e) ↦ record {
      at =
          rw (e, put_key)
            (rw (test_of_ne x not_found (λ q. b.refuses-ne ik.key ik.value (e ∙ ap some q))) tt);
    }
  ]

  pub find_ttl-Ensures :
      (ea : Time) (t : Tx) → Ensures (optional (find_ttl ea)) t (λ _ t'. IsFrame t t')
  unfolding find_ttl
  find_ttl-Ensures ea t = elim (Option-cases (p.get t.idxttls (p.format ea))) [
    | inl e ↦ record { at = rw (e, find_ttl) (IsFrame-refl t) }
    | inr (f, e) ↦ record { at = rw (e, find_ttl) (IsFrame-refl t) }
  ]

  pub put_ttl-Ensures : (i : IdxTtl) (t : Tx) → Ensures (put_ttl i) t (λ _ t'. IsFrame t t')
  unfolding put_ttl
  put_ttl-Ensures i t = elim (Option-cases (p.refuses (p.format i.expires_at) i.signatures)) [
    | inl e ↦ record {
      at = rw (e, put_ttl) (record { files = refl; idxkeys = refl; states = refl; id = refl });
    }
    | inr (x, e) ↦ record { at = rw (e, put_ttl) tt }
  ]

  -- What `Put` says of the entry that `Create` makes of a replica.
  unfoldable pub replica_refusal : ℤ → Replica → Tx → Option Error
  unfolding create_replica
  replica_refusal now rp t =
      let k = decimal (next_key t.last_key now) in p.refuses k (record rp { volume_replica_id = k })

  pub create_replica-Ensures :
      (now : ℤ) (rp : Replica) (t : Tx) → Ensures (create_replica now rp) t (λ _ t'. IsFrame t t')
  create_replica-Ensures now rp t = elim (Option-cases (replica_refusal now rp t)) [
    | inl e ↦ record {
      at =
          unfold create_replica replica_refusal in
          rw (e, create_replica)
            (record { files = refl; idxkeys = refl; states = refl; id = refl });
    }
    | inr (x, e) ↦ record {
      at = unfold create_replica replica_refusal in rw (e, create_replica) tt;
    }
  ]

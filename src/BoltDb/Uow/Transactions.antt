-- ===== src/BoltDb/Uow/Transactions.antt =====
-- What a unit of work keeps of its body: all of it, or nothing of the buckets.
use rebost.Prelude.{◌<>◌, ◌≡◌, refl, Option, none, some, inl, inr, Option-cases}
use rebost.Exec.{Error, Result, ok, err, panic, Exec}
use rebost.Exec.Ensures.{PostOr, EnsuresOr}
use rebost.Exec.Keeps.{Keeps}
use rebost.Platform.{Platform}
use rebost.FsUow.{Tracker, run_actions, settle}
use rebost.BoltDb.Repositories.{Db, Tx}
use rebost.BoltDb.Uow.{
  UowType, read, write, Outcome, Store, open_store, close, begun, bolt_uow, start_uow,
}

module _ ⦃p : Platform⦄ {A : Type 0} where
  close-Keeps :
      (P : Db → Type 0) (o : Outcome) (u : UowType) (r : Result A) (db : Db) (t : Tx)
      → P db
      → P t.db
      → P (close o u r db t).1.db
  unfolding close
  close-Keeps P o read r db t before after = before
  close-Keeps P o write (ok a) db t before after = elim (Option-cases o.commit_error) [
    | inl e ↦ rw e after
    | inr (x, e) ↦ rw e before
  ]
  close-Keeps P o write (err e) db t before after = before
  close-Keeps P o write panic db t before after = elim (Option-cases o.commit_error) [
    | inl e ↦ rw e after
    | inr (x, e) ↦ rw e before
  ]

  begun-Keeps :
      (P : Db → Type 0) (x : Option Error) (o : Outcome) (u : UowType) (body : Exec Tx A) (t : Tx)
      → P t.db
      → Keeps (λ t'. P t'.db) body
      → P (begun x o u body t).1.db
  unfolding begun
  begun-Keeps P none o u body t h k = close-Keeps P o u (body t).0 t.db (body t).1 h (k.at t h)
  begun-Keeps P (some e) o u body t h k = h

  -- A predicate of the buckets that every step of the body keeps, also where it fails or panics.
  pub start_uow-Keeps :
      (P : Db → Type 0) (o : Outcome) (u : UowType) (body : Exec Tx A) (s : Store)
      → P s.db
      → Keeps (λ t. P t.db) body
      → P (start_uow o u body s).1.db
  unfolding start_uow bolt_uow
  start_uow-Keeps P o u body s h k = begun-Keeps P o.begin_error o u body (open_store s) h k

-- The store holds what the body left, and the file system what the commit actions made of it.
pub record IsCommitted ⦃p : Platform⦄ (t : Tx) (s : Store) : Type 0 where
  pub db : s.db ≡ t.db
  pub fs : run_actions t.tracker.commit_actions t.tracker.fs ≡ (none, s.fs)
  pub last_key : s.last_key ≡ t.last_key
  pub id : s.id ≡ t.id

module _ ⦃p : Platform⦄ {A : Type 0} where
  -- A predicate of the buckets that holds before, and after a body that returns no error.
  close-db :
      (P : Db → Type 0) (o : Outcome) (u : UowType) (r : Result A) (db : Db) (t : Tx)
      → P db
      → PostOr (λ t'. P t'.db) (λ _ t'. P t'.db) r t
      → P (close o u r db t).1.db
  unfolding close
  close-db P o read r db t before after = before
  close-db P o write (ok a) db t before after = elim (Option-cases o.commit_error) [
    | inl e ↦ rw e after
    | inr (x, e) ↦ rw e before
  ]
  close-db P o write (err e) db t before after = before
  close-db P o write panic db t before after = elim (Option-cases o.commit_error) [
    | inl e ↦ rw e after
    | inr (x, e) ↦ rw e before
  ]

  -- The deferred commit runs where the body panics, too.
  pub start_uow-db :
      (P : Db → Type 0) (o : Outcome) (u : UowType) (body : Exec Tx A) (s : Store)
      → P s.db
      → EnsuresOr (λ t. P t.db) body (open_store s) (λ _ t. P t.db)
      → P (start_uow o u body s).1.db
  unfolding start_uow
  start_uow-db P o u body s before after = elim (Option-cases o.begin_error) [
    | inl e ↦
        rw (e, bolt_uow, begun)
          (close-db P o u (body (open_store s)).0 s.db (body (open_store s)).1 before after.at)
    | inr (x, e) ↦ rw (e, bolt_uow, begun) before
  ]

  settle-Post :
      (C : Type 0) (Q : A → Tx → Type 0) (r : Result A) (t : Tx)
      → PostOr (λ _. C) Q r t
      → PostOr
          (λ _. C)
          (λ a s. (t' : Tx) × Q a t' × IsCommitted t' s)
          (settle r t.tracker).0
          (record { db = t.db; fs = (settle r t.tracker).1; last_key = t.last_key; id = t.id })
  unfolding settle
  settle-Post C Q (ok a) t h =
      elim (Option-cases (run_actions t.tracker.commit_actions t.tracker.fs).0) [
        | inl e ↦
            rw (e, settle)
              (
                t,
                h,
                record {
                  db = refl;
                  fs = λ i. (e i, (run_actions t.tracker.commit_actions t.tracker.fs).1);
                  last_key = refl;
                  id = refl;
                },
              )
        | inr (x, e) ↦ rw (e, settle) tt
      ]
  settle-Post C Q (err e) t h =
      elim (Option-cases (run_actions t.tracker.rollback_actions t.tracker.fs).0) [
        | inl x ↦ rw (x, settle) tt
        | inr (y, x) ↦ rw (x, settle) tt
      ]
  settle-Post C Q panic t h = h

  close-Post :
      (C : Type 0) (Q : A → Tx → Type 0) (o : Outcome) (r : Result A) (db : Db) (t : Tx)
      → PostOr (λ _. C) Q r t
      → PostOr (λ _. C) Q (close o write r db t).0 (close o write r db t).1
  unfolding close
  close-Post C Q o (ok a) db t h = elim (Option-cases o.commit_error) [
    | inl e ↦ rw e h
    | inr (x, e) ↦ rw e tt
  ]
  close-Post C Q o (err e) db t h = elim (Option-cases o.rollback_error) [
    | inl e ↦ rw e tt
    | inr (x, e) ↦ rw e tt
  ]
  close-Post C Q o panic db t h = h

  pub start_uow-Ensures :
      {C : Type 0} {Q : A → Tx → Type 0} (o : Outcome) (body : Exec Tx A) (s : Store)
      → EnsuresOr (λ _. C) body (open_store s) Q
      → EnsuresOr (λ _. C) (start_uow o write body) s (λ a s'. (t : Tx) × Q a t × IsCommitted t s')
  unfolding start_uow
  start_uow-Ensures {C} {Q} o body s h = elim (Option-cases o.begin_error) [
    | inl e ↦ record {
      at =
          rw (e, bolt_uow, begun)
            (settle-Post C Q _ _
              (close-Post C Q o (body (open_store s)).0 s.db (body (open_store s)).1 h.at));
    }
    | inr (x, e) ↦ record { at = rw (e, bolt_uow, begun) (unfold settle run_actions in tt) }
  ]

  settle-err : (e : Error) (t : Tracker) → (e' : Error) × ((settle {A = A} (err e) t).0 ≡ err e')
  unfolding settle
  settle-err e t = elim (Option-cases (run_actions t.rollback_actions t.fs).0) [
    | inl x ↦ (e, rw (x, settle))
    | inr (y, x) ↦ (y, rw (x, settle))
  ]

  close-err :
      (o : Outcome) (u : UowType) (e : Error) (db : Db) (t : Tx)
      → (e' : Error) × (close {A = A} o u (err e) db t ≡ (err e', record t { db = db }))
  unfolding close
  close-err o read e db t = elim (Option-cases o.rollback_error) [
    | inl x ↦ (e, rw x)
    | inr (y, x) ↦ ("failed to rollback TX: " <> y, rw x)
  ]
  close-err o write e db t = elim (Option-cases o.rollback_error) [
    | inl x ↦ (e, rw x)
    | inr (y, x) ↦ ("failed to rollback TX: " <> y, rw x)
  ]

  begun-err :
      (x : Option Error) (o : Outcome) (u : UowType) (body : Exec Tx A) (t : Tx) (e : Error)
      → (body t).0 ≡ err e
      → (e' : Error) × (t' : Tx) × (begun x o u body t ≡ (err e', t')) × (t'.db ≡ t.db)
  unfolding begun
  begun-err none o u body t e h =
      let (e', q) = close-err o u e t.db (body t).1 in
      (e', record (body t).1 { db = t.db }, rw h q, refl)
  begun-err (some y) o u body t e h = ("could not initialize TX: " <> y, t, refl, refl)

  -- An error of the body undoes its writes to the buckets, and is an error of the unit of work.
  pub start_uow-err :
      (o : Outcome) (u : UowType) (body : Exec Tx A) (s : Store) (e : Error)
      → (body (open_store s)).0 ≡ err e
      → ((start_uow o u body s).1.db ≡ s.db) × ((e' : Error) × ((start_uow o u body s).0 ≡ err e'))
  unfolding start_uow
  start_uow-err o u body s e h =
      let (e', t, q, same) = begun-err o.begin_error o u body (open_store s) e h in
      unfold bolt_uow in rw (q, start_uow) (same, settle-err e' t.tracker)

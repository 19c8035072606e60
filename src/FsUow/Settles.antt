-- ===== src/FsUow/Settles.antt =====
-- What the end of a unit of work makes of the files that were removed in it.
use rebost.Prelude.{
  List, [], ◌∷◌, String, ◌==◌, ◌≡◌, ◌≢◌, refl, sym, ◌∙◌, ap, Option, none, some, if◌then◌else◌,
  eq_refl, ne_of_test, test_of_ne, inl, inr, Option-cases, Bool-cases, eq_of_test,
}
use text.Mathlib.TextLemmas.{append-nil, append_cancel_left, append_cancel_right}
use rebost.Exec.{Error, ok, err}
use rebost.Platform.{Platform, IsAfero}
use rebost.FsUow.{
  Action, perform, Tracker, new_tracker, tmp_name, tracked_remove, note_remove, note_rollback,
  run_actions, settle,
}

tmp_name-ne : (s : String) → tmp_name s ≢ s
tmp_name-ne s e =
    ne_of_test ".tmp" "" refl (append_cancel_left s ".tmp" "" (e ∙ sym (append-nil s)))

module _ ⦃p : Platform⦄ where
  run_one :
      (x : Action) (fs : p.Fs)
      → (perform x fs).0 ≡ none
      → run_actions (x ∷ []) fs ≡ (none, (perform x fs).1)
  unfolding run_actions
  run_one x fs e = rw (e, run_actions) refl

  -- The first of the actions succeeds where all do, and the rest is run on what it leaves.
  run_done :
      (x : Action) (xs : List Action) (fs : p.Fs)
      → (run_actions (x ∷ xs) fs).0 ≡ none
      → ((perform x fs).0 ≡ none) × (run_actions (x ∷ xs) fs ≡ run_actions xs (perform x fs).1)
  unfolding run_actions
  run_done x xs fs h = elim (Option-cases (perform x fs).0) [
    | inl e ↦ (e, rw (e, run_actions) refl)
    | inr (y, e) ↦
        let stop : run_actions (x ∷ xs) fs ≡ (some y, (perform x fs).1) =
          rw (e, run_actions) refl in
        absurd (cc (h, ap (λ (o : Option Error × p.Fs). o.0) stop))
  ]

  settle_done :
      (t : Tracker)
      → (settle (ok (tt {0})) t).0 ≡ ok (tt {0})
      → (run_actions t.commit_actions t.fs).0 ≡ none
  unfolding settle
  settle_done t h = elim (Option-cases (run_actions t.commit_actions t.fs).0) [
    | inl e ↦ e
    | inr (x, e) ↦
        let failed : (settle (ok (tt {0})) t).0 ≡ err x = rw (e, settle) refl in
        absurd (cc (h, failed))
  ]

  settle_back :
      (x : Error) (t : Tracker)
      → (run_actions t.rollback_actions t.fs).0 ≡ none
      → (settle {A = Unit {0}} (err x) t).0 ≡ err x
  unfolding settle
  settle_back x t e = rw (e, settle) refl

module _ ⦃p : Platform⦄ (a : IsAfero) where
  restored :
      {fs : p.Fs} (name j : String)
      → (if name == j then p.read fs name else (if name == j then none else p.read fs j))
        ≡ p.read fs j
  restored name j = elim (Bool-cases (name == j)) [
    | inl e ↦ rw (e, eq_of_test name j e) refl
    | inr e ↦ rw e refl
  ]

  -- A file that is the only one removed in a unit of work is gone once that is committed with no
  -- error; no other file changes, but the one with the name of the temporary file.
  remove_then_commit :
      (fs : p.Fs) (name : String)
      → let t = (tracked_remove name (new_tracker fs)).1 in
        (p.rename fs name (tmp_name name)).0 ≡ none
        → (settle (ok (tt {0})) t).0 ≡ ok (tt {0})
        → (j : String) → j ≢ tmp_name name
        → p.read (settle (ok (tt {0})) t).1 j ≡ (if name == j then none else p.read fs j)
  unfolding tracked_remove note_remove note_rollback settle run_actions
  remove_then_commit fs name e done j other =
      let tmp = tmp_name name in
      let fs1 = (p.rename fs name tmp).1 in
      let ran = settle_done (tracked_remove name (new_tracker fs)).1 done in
      let (gone, _) = run_done (Action.remove tmp) [] fs1 ran in
      let out : run_actions (Action.remove tmp ∷ []) fs1 ≡ (none, (p.remove fs1 tmp).1) =
        run_one (Action.remove tmp) fs1 gone in
      rw out (
        a.read-remove fs1 tmp j gone
        ∙ rw (test_of_ne tmp j (λ q. other (sym q))) (
            a.read-rename fs name tmp j (λ q. tmp_name-ne name (sym q)) e
            ∙ rw (test_of_ne tmp j (λ q. other (sym q))) refl))

  -- Where the only file that is removed in a unit of work can be moved back, a rollback restores it,
  -- and every other file is as before, but the one with the name of the temporary file.
  pub remove_then_rollback :
      (fs : p.Fs) (name : String)
      → let t = (tracked_remove name (new_tracker fs)).1 in
        (p.rename fs name (tmp_name name)).0 ≡ none
        → (p.rename t.fs (tmp_name name) name).0 ≡ none
        → (x : Error) (j : String) → j ≢ tmp_name name
        → (settle {A = Unit {0}} (err x) t).0 ≡ err x
          × (p.read (settle {A = Unit {0}} (err x) t).1 j ≡ p.read fs j)
  unfolding tracked_remove note_remove note_rollback settle run_actions
  remove_then_rollback fs name e back x j other =
      let tmp = tmp_name name in
      let fs1 = (p.rename fs name tmp).1 in
      let out : run_actions (Action.rename tmp name ∷ []) fs1 ≡ (none, (p.rename fs1 tmp name).1) =
        run_one (Action.rename tmp name) fs1 back in
      let there : p.read fs1 tmp ≡ p.read fs name =
        a.read-rename fs name tmp tmp (λ q. tmp_name-ne name (sym q)) e ∙ rw (eq_refl tmp) refl in
      let elsewhere : p.read fs1 j ≡ (if name == j then none else p.read fs j) =
        a.read-rename fs name tmp j (λ q. tmp_name-ne name (sym q)) e
        ∙ rw (test_of_ne tmp j (λ q. other (sym q))) refl in
      rw out (
        settle_back x (tracked_remove name (new_tracker fs)).1 (rw out refl),
        a.read-rename fs1 tmp name j (tmp_name-ne name) back
            ∙ rw (test_of_ne tmp j (λ q. other (sym q)), there, elsewhere) (restored name j),
      )

  -- Where two files are removed in one unit of work, and it is committed with no error, the first
  -- one is back in its place with its content, and only the second one is gone.
  pub removes_then_commit :
      (fs : p.Fs) (m n : String)
      → m ≢ n
      → tmp_name m ≢ n
      → m ≢ tmp_name n
      → let t1 = (tracked_remove m (new_tracker fs)).1 in
        let t2 = (tracked_remove n t1).1 in
        (p.rename fs m (tmp_name m)).0 ≡ none
        → (p.rename t1.fs n (tmp_name n)).0 ≡ none
        → (settle (ok (tt {0})) t2).0 ≡ ok (tt {0})
        → (p.read (settle (ok (tt {0})) t2).1 m ≡ p.read fs m)
          × (p.read (settle (ok (tt {0})) t2).1 n ≡ none)
  unfolding tracked_remove note_remove note_rollback settle run_actions
  removes_then_commit fs m n mn tn nt e1 e2 done =
      let tm = tmp_name m in
      let tn' = tmp_name n in
      let fs1 = (p.rename fs m tm).1 in
      let fs2 = (p.rename fs1 n tn').1 in
      let fs3 = (p.rename fs2 tm m).1 in
      let ran = settle_done (tracked_remove n (tracked_remove m (new_tracker fs)).1).1 done in
      let (back, first) = run_done (Action.rename tm m) (Action.remove tn' ∷ []) fs2 ran in
      let (gone, second) =
        run_done (Action.remove tn') [] fs3
          (ap (λ (o : Option Error × p.Fs). o.0) (sym first) ∙ ran) in
      let apart : tn' ≢ tm = λ q. mn (sym (append_cancel_right n m ".tmp" q)) in
      let own = λ (x : String). tmp_name-ne x in
      let first_content : p.read fs1 tm ≡ p.read fs m =
        a.read-rename fs m tm tm (λ q. own m (sym q)) e1 ∙ rw (eq_refl tm) refl in
      rw (first, second)
        (
          a.read-remove fs3 tn' m gone
              ∙ rw (test_of_ne tn' m (λ q. nt (sym q))) (
                  a.read-rename fs2 tm m m (own m) back
                  ∙ rw (eq_refl m) (
                      a.read-rename fs1 n tn' tm (λ q. own n (sym q)) e2
                      ∙ rw (test_of_ne tn' tm apart, test_of_ne n tm (λ q. tn (sym q)))
                          first_content)),
          a.read-remove fs3 tn' n gone
              ∙ rw (test_of_ne tn' n (own n)) (
                  a.read-rename fs2 tm m n (own m) back
                  ∙ rw (test_of_ne m n mn, test_of_ne tm n tn)
                      (a.read-rename fs1 n tn' n (λ q. own n (sym q)) e2
                        ∙ rw (test_of_ne tn' n (own n), eq_refl n) refl)),
        )

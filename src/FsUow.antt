-- ===== src/FsUow.antt =====
-- fs/unit_of_work.go: a file system that notes how to undo and how to finish what is done to it.
pub mod Settles
use rebost.Prelude.{
  ℕ, ◌*◌, String, ◌<>◌, Option, none, some, List, [], ◌∷◌, ◌++◌, length, ltb, eqb, if◌then◌else◌,
}
use rebost.Exec.{Error, Result, ok, err}
use rebost.Platform.{Platform, Bytes}

-- The closures of type `actionFn`.
pub data Action : Type 0 where
  remove : String → Action
  rename : String → String → Action

-- `room` is the capacity of the slice `rollbackActions`.
pub record Tracker ⦃p : Platform⦄ : Type 0 where
  pub fs : p.Fs
  pub rollback_actions : List Action
  pub commit_actions : List Action
  pub room : ℕ

-- The capacity after an `append` to a full slice: Go doubles it (up to 256 entries).
abbrev grow : ℕ → ℕ → ℕ
grow n room = if ltb n room then room else if eqb n 0 then 1 else room * 2

abbrev pub tmp_name : String → String
tmp_name name = name <> ".tmp"

module _ ⦃p : Platform⦄ where
  abbrev pub new_tracker : p.Fs → Tracker
  new_tracker fs = record { fs = fs; rollback_actions = []; commit_actions = []; room = 0 }

  -- `uowt.rollbackActions = append(uowt.rollbackActions, a)`
  unfoldable pub note_rollback : Action → Tracker → Tracker
  note_rollback a t = record t {
    rollback_actions = t.rollback_actions ++ a ∷ [];
    room = grow (length t.rollback_actions) t.room;
  }

  -- The two appends of `Remove`. Both start from `rollbackActions`: where that slice has room left,
  -- both write to the same cell of one array, and the second write is what both slices show.
  unfoldable pub note_remove : String → String → Tracker → Tracker
  unfolding note_rollback
  note_remove tmp name t =
      let shared = ltb (length t.rollback_actions) t.room in
      let undo = Action.rename tmp name in
      note_rollback undo (record t {
        commit_actions = t.rollback_actions ++ (if shared then undo else Action.remove tmp) ∷ [];
      })

  unfoldable pub tracked_remove : String → Tracker → Option Error × Tracker
  unfolding note_remove
  tracked_remove name t =
      let t' = note_remove (tmp_name name) name t in
      let (e, fs) = p.rename t.fs name (tmp_name name) in (e, record t' { fs = fs })

  unfoldable pub tracked_rename : String → String → Tracker → Option Error × Tracker
  unfolding note_rollback
  tracked_rename oldname newname t =
      let t' = note_rollback (Action.rename newname oldname) t in
      let (e, fs) = p.rename t.fs oldname newname in (e, record t' { fs = fs })

  unfoldable pub tracked_create : String → Bytes → Tracker → Option Error × Tracker
  unfolding note_rollback
  tracked_create name content t =
      let t' = note_rollback (Action.remove name) t in
      let (e, fs) = p.store t.fs name content in (e, record t' { fs = fs })

  unfoldable pub tracked_remove_all : String → Tracker → Option Error × Tracker
  tracked_remove_all name t = let (e, fs) = p.remove_all t.fs name in (e, record t { fs = fs })

  unfoldable pub tracked_mkdir_all : String → Tracker → Option Error × Tracker
  tracked_mkdir_all name t = let (e, fs) = p.mkdir_all t.fs name in (e, record t { fs = fs })

  abbrev pub perform : Action → p.Fs → Option Error × p.Fs
  perform (Action.remove n) fs = p.remove fs n
  perform (Action.rename a b) fs = p.rename fs a b

  -- The loops over the noted actions, which end at the first error.
  unfoldable pub run_actions : List Action → p.Fs → Option Error × p.Fs
  run_actions [] fs = (none, fs)
  run_actions (a ∷ actions) fs =
      let (e, fs') = perform a fs in
      elim e [ none ↦ run_actions actions fs' | some x ↦ (some x, fs') ]

  -- What `UOWWithFs` does once the inner unit of work has returned.
  unfoldable pub settle {ℓ} : {A : Type ℓ} → Result A → Tracker → Result A × p.Fs
  unfolding run_actions
  settle (ok a) t =
      let (e, fs) = run_actions t.commit_actions t.fs in
      (elim e [ none ↦ ok a | some x ↦ err x ], fs)
  settle (err x) t =
      let (e, fs) = run_actions t.rollback_actions t.fs in
      (elim e [ none ↦ err x | some y ↦ err y ], fs)
  settle Result.panic t = (Result.panic, t.fs)

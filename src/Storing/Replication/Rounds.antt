-- ===== src/Storing/Replication/Rounds.antt =====
-- A round goes on to its end, whatever errors the volumes and the nodes return.
use rebost.Prelude.{
  String, ◌≡◌, ◌≢◌, refl, sym, ◌∙◌, ap, Bool, false, ◌||◌, List, [], ◌∷◌, ◌++◌, inl, inr,
}
use rebost.Exec.{Result, Result-cases, ok, err, panic}
use rebost.Storing.Replication.{
  Members, replicate_next, replicate_volumes, replication_round, synchronize_locals,
  synchronize_removed,
}
use rebost.Storing.Replication.Calm.{IsCalm, replicate_next-ne-panic}
use rebost.Storing.Replication.Progress.{replicate_next-ne-err}

abbrev with_each : {A B : Type 0} → A → List B → List (A × B)
with_each a [] = []
with_each a (b ∷ bs) = (a, b) ∷ with_each a bs

-- All pairs of two lists, in the order of two nested loops.
abbrev pub pairs : {A B : Type 0} → List A → List B → List (A × B)
pairs [] bs = []
pairs (a ∷ others) bs = with_each a bs ++ pairs others bs

abbrev pub says : Result Bool → Bool
says (ok b) = b
says (err e) = false
says panic = false

module _ {W L N : Type 0} (m : Members W L N) where
  -- The world after one call for each pair of a removed volume and a local one.
  abbrev pub after_calls : List (String × L) → W → W
  after_calls [] w = w
  after_calls ((vid, v) ∷ ps) w = after_calls ps (m.synchronize_replicas v vid w).1

  -- The world after the body of the loop has run for each volume, and what each has said.
  abbrev pub after_bodies : List L → W → W
  after_bodies [] w = w
  after_bodies (v ∷ vs) w = after_bodies vs (replicate_next m v w).1

  abbrev pub answers : List L → W → List Bool
  answers [] w = []
  answers (v ∷ vs) w = says (replicate_next m v w).0 ∷ answers vs (replicate_next m v w).1

  abbrev pub any_of : List Bool → Bool
  any_of [] = false
  any_of (b ∷ bs) = b || any_of bs

  after_calls-++ :
      (ps qs : List (String × L)) (w : W)
      → after_calls (ps ++ qs) w ≡ after_calls qs (after_calls ps w)
  after_calls-++ [] qs w = refl
  after_calls-++ ((vid, v) ∷ ps) qs w = after_calls-++ ps qs (m.synchronize_replicas v vid w).1

  module _
      (calm : (v : L) (vid : String) (w : W) → (m.synchronize_replicas v vid w).0 ≢ panic) where
    locals_lem :
        (vs : List L) (vid : String) (w : W)
        → synchronize_locals m vs vid w ≡ (ok tt, after_calls (with_each vid vs) w)
    unfolding synchronize_locals
    locals_lem [] vid w = refl
    locals_lem (v ∷ vs) vid w = elim (Result-cases (m.synchronize_replicas v vid w).0) [
      | inl (u, e) ↦ rw e (locals_lem vs vid (m.synchronize_replicas v vid w).1)
      | inr (inl (x, e)) ↦ rw e (locals_lem vs vid (m.synchronize_replicas v vid w).1)
      | inr (inr e) ↦ absurd (calm v vid w e)
    ]

    removed_lem :
        (vids : List String) (w : W)
        → synchronize_removed m vids w ≡ (ok tt, after_calls (pairs vids m.local_volumes) w)
    unfolding synchronize_removed
    removed_lem [] w = refl
    removed_lem (vid ∷ vids) w = rw (locals_lem m.local_volumes vid w) (
        removed_lem vids (after_calls (with_each vid m.local_volumes) w)
        ∙ ap (λ u. (ok tt, u))
            (sym (after_calls-++ (with_each vid m.local_volumes) (pairs vids m.local_volumes) w)))

  module _ (calm : (v : L) (w : W) → (replicate_next m v w).0 ≢ panic) where
    volumes_lem :
        (vs : List L) (w : W)
        → replicate_volumes m vs w ≡ (ok (any_of (answers vs w)), after_bodies vs w)
    unfolding replicate_volumes
    volumes_lem [] w = refl
    volumes_lem (v ∷ vs) w = elim (Result-cases (replicate_next m v w).0) [
      | inl (b, e) ↦ rw e (rw (volumes_lem vs (replicate_next m v w).1) refl)
      | inr (inl (x, e)) ↦ absurd (replicate_next-ne-err m v w x e)
      | inr (inr e) ↦ absurd (calm v w e)
    ]

  -- Where no call of a volume or of a node panics, whatever errors they return: a round of replication has run its body for
  -- every local volume, and says whether one of them said that something was copied; and the recovery
  -- from any list of removed volumes has called `SynchronizeReplicas` of every local volume for every
  -- removed one, in the order of the two loops, and returns no error.
  pub rounds-Complete :
      IsCalm m
      → (w : W) (vids : List String)
      → (replication_round m w
          ≡ (ok (any_of (answers m.local_volumes w)), after_bodies m.local_volumes w))
        × (synchronize_removed m vids w ≡ (ok tt, after_calls (pairs vids m.local_volumes) w))
  unfolding replication_round
  rounds-Complete c w vids = (
    volumes_lem (replicate_next-ne-panic m c) m.local_volumes w,
    removed_lem c.synchronize_replicas vids w,
  )

-- ===== src/Storing/Finds.antt =====
-- Which volume a node finds for a key, in whatever order the answers come in.
use rebost.Prelude.{
  ℕ, zero, suc, String, ◌≡◌, ◌≢◌, refl, sym, ◌∙◌, ap, Bool, true, false, some, List, [], ◌∷◌,
  get_elem?,
}
use rebost.Exec.{Result, ok, err, panic, not_found}
use rebost.Storing.{pick, find_volume}

abbrev is_yes : Result (String × Bool) → Bool
is_yes (ok (vid, b)) = b
is_yes (err e) = false
is_yes panic = false

unlike : (a b : Result (String × Bool)) → is_yes a ≡ false → is_yes b ≡ true → a ≢ b
unlike a b f t q = let same : is_yes a ≡ is_yes b = ap is_yes q in cc (f, t, same)

module _ {V : Type 0} (ask : V → Result (String × Bool)) where
  -- Some volume of the list has answered that it has the key, as `vid`.
  pub record IsHolder (vs : List V) (vid : String) (v : V) : Type 0 where
    pub index : ℕ
    pub listed : get_elem? vs index ≡ some v
    pub answered : ask v ≡ ok (vid, true)

  -- No volume of the list has.
  abbrev pub HasNone : List V → Type 0
  HasNone vs = (i : ℕ) (v : V) (vid : String) → get_elem? vs i ≡ some v → ask v ≢ ok (vid, true)

  -- A volume that has the key, or "not found" where none has.
  abbrev pub FindOutcome : List V → Result (String × V) → Type 0
  FindOutcome vs (ok (vid, v)) = IsHolder vs vid v
  FindOutcome vs (err e) = (e ≡ not_found) × HasNone vs
  FindOutcome vs panic = ⊥

  others :
      (w : V) (vs : List V)
      → ((vid : String) → ask w ≢ ok (vid, true))
      → HasNone vs
      → HasNone (w ∷ vs)
  others w vs lacks h zero v vid e q = let same : w ≡ v = cc e in lacks vid (ap ask same ∙ q)
  others w vs lacks h (suc i) v vid e q = h i v vid e q

  in_rest :
      (w : V) (vs : List V) (r : Result (String × V))
      → ((vid : String) → ask w ≢ ok (vid, true))
      → FindOutcome vs r
      → FindOutcome (w ∷ vs) r
  in_rest w vs (ok (vid, v)) lacks h = record {
    index = suc h.index;
    listed = h.listed;
    answered = h.answered;
  }
  in_rest w vs (err e) lacks (same, h) = (same, others w vs lacks h)
  in_rest w vs panic lacks h = h

  picked :
      (a : Result (String × Bool)) (w : V) (vs : List V) (r : Result (String × V))
      → ask w ≡ a
      → FindOutcome vs r
      → FindOutcome (w ∷ vs) (pick a w r)
  picked (ok (vid, true)) w vs r e h = record { index = 0; listed = refl; answered = e }
  picked (ok (vid, false)) w vs r e h =
      in_rest w vs r (λ vid' q. unlike _ _ refl refl (sym e ∙ q)) h
  picked (err x) w vs r e h = in_rest w vs r (λ vid q. unlike _ _ refl refl (sym e ∙ q)) h
  picked panic w vs r e h = in_rest w vs r (λ vid q. unlike _ _ refl refl (sym e ∙ q)) h

  -- Whatever the order of the answers, `findVolume` returns a volume that has the key, and "not
  -- found" exactly where none of them has; errors of volumes are passed over.
  pub find_volume-Outcome : (vs : List V) → FindOutcome vs (find_volume ask vs)
  unfolding find_volume
  find_volume-Outcome [] = (refl, λ i v vid e. cc e)
  find_volume-Outcome (v ∷ vs) =
      picked (ask v) v vs (find_volume ask vs) refl (find_volume-Outcome vs)

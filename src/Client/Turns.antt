-- ===== src/Client/Turns.antt =====
-- The hosts take turns.
use rebost.Prelude.{
  ℕ, zero, suc, ◌+◌, ◌-◌, ◌≡◌, refl, ◌∙◌, ap, List, [], ◌∷◌, ◌++◌, map, append_assoc, length,
  length-append, get_elem?, some, eqb, arith, true, false,
}
use rebost.Exec.{Result, ok}
use rebost.Client.{Client, get_client}

module _ {H : Type 0} where
  -- The results of `n` calls of `getClient`, and the client after them.
  abbrev pub take_turns : ℕ → Client H → List (Result H) × Client H
  take_turns zero c = ([], c)
  take_turns (suc n) c =
      let (r, c1) = get_client c in let (rs, c2) = take_turns n c1 in (r ∷ rs, c2)

  abbrev at_place : ℕ → List H → Client H
  at_place n hs = record { next_client = n; clients = hs }

  get_elem_middle :
      (pre : List H) (x : H) (xs : List H) → get_elem? (pre ++ x ∷ xs) (length pre) ≡ some x
  get_elem_middle [] x xs = refl
  get_elem_middle (y ∷ pre) x xs = get_elem_middle pre x xs

  get_client_next :
      (pre : List H) (x y : H) (xs : List H)
      → get_client (at_place (length pre) (pre ++ x ∷ y ∷ xs))
        ≡ (ok x, at_place (length pre + 1) (pre ++ x ∷ y ∷ xs))
  unfolding get_client
  get_client_next pre x y xs = rw (get_elem_middle pre x (y ∷ xs), get_client) (rw not_last refl)
    where
      not_last : eqb (length pre) (length (pre ++ x ∷ y ∷ xs) - 1) ≡ false
      not_last = ground (arith, length-append pre (x ∷ y ∷ xs))

  get_client_last :
      (pre : List H) (x : H)
      → get_client (at_place (length pre) (pre ++ x ∷ [])) ≡ (ok x, at_place 0 (pre ++ x ∷ []))
  unfolding get_client
  get_client_last pre x = rw (get_elem_middle pre x [], get_client) (rw last refl)
    where
      last : eqb (length pre) (length (pre ++ x ∷ []) - 1) ≡ true
      last = ground (arith, length-append pre (x ∷ []))

  take_step :
      (n : ℕ) (c : Client H) (r : Result H) (c1 : Client H)
      → get_client c ≡ (r, c1)
      → take_turns (suc n) c ≡ (r ∷ (take_turns n c1).0, (take_turns n c1).1)
  take_step n c r c1 e = rw e refl

  -- The rest of a round, from the host behind `pre`.
  rest_of_round :
      (pre : List H) (x : H) (xs : List H)
      → take_turns (suc (length xs)) (at_place (length pre) (pre ++ x ∷ xs))
        ≡ (map ok (x ∷ xs), at_place 0 (pre ++ x ∷ xs))
  rest_of_round pre x [] = rw (get_client_last pre x) refl
  rest_of_round pre x (y ∷ xs) =
      take_step (suc (length xs)) (at_place (length pre) (pre ++ x ∷ y ∷ xs)) (ok x) _
        (get_client_next pre x y xs)
      ∙ ap (λ (t : List (Result H) × Client H). (ok x ∷ t.0, t.1))
          (rest_from pre x y xs (rest_of_round (pre ++ x ∷ []) y xs))
    where
      rest_from :
          (pre : List H) (x y : H) (xs : List H)
          → take_turns
              (suc (length xs))
              (at_place (length (pre ++ x ∷ [])) ((pre ++ x ∷ []) ++ y ∷ xs))
            ≡ (map ok (y ∷ xs), at_place 0 ((pre ++ x ∷ []) ++ y ∷ xs))
          → take_turns (suc (length xs)) (at_place (length pre + 1) (pre ++ x ∷ y ∷ xs))
            ≡ (map ok (y ∷ xs), at_place 0 (pre ++ x ∷ y ∷ xs))
      rest_from pre x y xs h =
          rw (← length-append pre (x ∷ []), ← append_assoc pre (x ∷ []) (y ∷ xs)) h

  -- From a new client of one host or more, as many calls of `getClient` as there are hosts return
  -- each host once, in their order, with no panic, and leave the client as it was.
  pub take_turns-round :
      (h : H) (hs : List H)
      → take_turns (length (h ∷ hs)) (record { next_client = 0; clients = h ∷ hs })
        ≡ (map ok (h ∷ hs), record { next_client = 0; clients = h ∷ hs })
  take_turns-round h hs = rest_of_round [] h hs

-- ===== src/Catalog/Consistency.antt =====
-- The two indexes agree: a key stands for the signature of the one file that lists it.
use rebost.Prelude.{
  String, ◌==◌, ◌≡◌, refl, ◌∙◌, ◌≢◌, Bool, true, false, ◌&&◌, ◌||◌, not, Option, none, some, List,
  [], ◌∷◌, contains, without, contains-without, fun_ext, arith, eq_iff, eq_refl, inl, inr,
  Bool-cases, Option-cases, eq_of_test,
}
use rebost.File.{File}
use rebost.Catalog.{Lookup, update, erase, dropped, drop_key}

pub record IsConsistent (F : Lookup File) (I : Lookup String) : Type 0 where
  pub indexed :
      (k s : String) → I k ≡ some s → (f : File) × (F s ≡ some f) × (contains f.keys k ≡ true)
  pub owned : (s k : String) (f : File) → F s ≡ some f → contains f.keys k ≡ true → I k ≡ some s
  pub signed : (s : String) (f : File) → F s ≡ some f → f.signature ≡ s

-- Some key is listed by the file of `s`.
abbrev pub lists : Option File → String → Bool
lists none k = false
lists (some f) k = contains f.keys k

module _ {F : Lookup File} {I : Lookup String} (c : IsConsistent F I) where
  -- A key that is listed stands for the signature of the file.
  pub owned_of_lists : (s k : String) → lists (F s) k ≡ true → I k ≡ some s
  owned_of_lists s k h = elim (Option-cases (F s)) [
    | inl e ↦ absurd (ground arith)
    | inr (f, e) ↦ c.owned s k f e (ground arith)
  ]

  -- A key that stands for nothing is listed nowhere.
  pub unlisted : (k s : String) → I k ≡ none → lists (F s) k ≡ false
  unlisted k s e = ground (arith, owned_of_lists s k)

  pub lists_of_indexed : (k s : String) → I k ≡ some s → lists (F s) k ≡ true
  lists_of_indexed k s e = let (f, fs, h) = c.indexed k s e in rw fs h

  -- The file of `s` becomes one with the same keys less `k`, or goes where none is left.
  pub drop-IsConsistent :
      (k s : String) (d : File) (xs : List String)
      → I k ≡ some s
      → F s ≡ some d
      → ((j : String) → contains xs j ≡ (contains d.keys j && not (k == j)))
      → IsConsistent (update F s (record d { keys = xs })) (erase I k)
  drop-IsConsistent k s d xs ik fs left = record {
    indexed = λ j s' e. elim (Bool-cases (s == s')) [
      | inl same ↦ (
        record d { keys = xs },
        rw same,
        ground (arith, left j, eq_iff s s', lists_of_indexed j s),
      )
      | inr other ↦ let (f, found, h) = c.indexed j s' (ground arith) in (f, ground arith, h)
    ];
    owned = λ s' j f e h.
        ground (arith, left j, eq_iff s s', eq_iff k j, c.owned s' j f, c.owned s j d);
    signed = λ s' f e. ground (arith, eq_iff s s', c.signed s' f, c.signed s d);
  }

  -- A key that stands for nothing is listed by the file `g`, beside the keys that it had.
  pub add_key-IsConsistent :
      (k : String) (g : File)
      → I k ≡ none
      → ((j : String) → contains g.keys j ≡ (lists (F g.signature) j || k == j))
      → IsConsistent (update F g.signature g) (update I k g.signature)
  add_key-IsConsistent k g ik listed = record {
    indexed = λ j s e. elim (Bool-cases (g.signature == s)) [
      | inl same ↦ (
        g,
        rw same,
        ground (arith, listed j, eq_iff g.signature s, lists_of_indexed j g.signature),
      )
      | inr other ↦
          let (f, found, h) = c.indexed j s (ground (arith, eq_iff g.signature s)) in
          (f, ground arith, h)
    ];
    owned = λ s j f e h. ground (
      arith,
      listed j,
      eq_iff g.signature s,
      eq_iff k j,
      c.owned s j f,
      owned_of_lists g.signature j,
    );
    signed = λ s f e. ground (arith, eq_iff g.signature s, c.signed s f);
  }

  -- The file of `s` goes with its last key `k`.
  pub erase-IsConsistent :
      (k s : String) (d : File)
      → I k ≡ some s
      → F s ≡ some d
      → ((j : String) → contains d.keys j ≡ true → k ≡ j)
      → IsConsistent (erase F s) (erase I k)
  erase-IsConsistent k s d ik fs only = record {
    indexed = λ j s' e.
        let (f, found, h) = c.indexed j s' (ground arith) in
        (f, ground (arith, eq_iff s s', eq_iff k j, only j), h);
    owned = λ s' j f e h. ground (arith, eq_iff s s', eq_iff k j, c.owned s' j f);
    signed = λ s' f e. ground (arith, c.signed s' f);
  }

  drop_rest :
      (k s : String) (d : File) (ls : List String)
      → I k ≡ some s
      → F s ≡ some d
      → without k d.keys ≡ ls
      → IsConsistent (dropped F s d ls) (erase I k)
  drop_rest k s d [] ik fs w =
      erase-IsConsistent k s d ik fs
        λ j h. eq_of_test k j (unfold contains in ground (arith, contains-without k d.keys j))
  drop_rest k s d (x ∷ xs) ik fs w =
      drop-IsConsistent k s d (x ∷ xs) ik fs λ j. rw (← w) (contains-without k d.keys j)

  -- The key `k` of the file `d` is given up.
  pub drop_key-IsConsistent :
      (k s : String) (d : File)
      → I k ≡ some s
      → F s ≡ some d
      → IsConsistent (drop_key F s k d) (erase I k)
  unfolding drop_key
  drop_key-IsConsistent k s d ik fs = drop_rest k s d (without k d.keys) ik fs refl

module _ (F : Lookup File) (s : String) (d : File) (sig : String) (other : s ≢ sig) where
  dropped-update :
      (g : File) (ls : List String)
      → dropped (update F sig g) s d ls ≡ update (dropped F s d ls) sig g
  dropped-update g [] = fun_ext λ j. ground (arith, eq_iff s j, eq_iff sig j)
  dropped-update g (x ∷ xs) = fun_ext λ j. ground (arith, eq_iff s j, eq_iff sig j)

  dropped_other : (ls : List String) → dropped F s d ls sig ≡ F sig
  dropped_other [] = ground (arith, eq_iff s sig)
  dropped_other (x ∷ xs) = ground (arith, eq_iff s sig)

update-erase : (I : Lookup String) (k x : String) → update (erase I k) k x ≡ update I k x
update-erase I k x = fun_ext λ j. ground arith

-- The key `k` moves from the file `d` of `s` to the file `g`, in the order in which the buckets are
-- written: `g` is stored first.
pub move_key-IsConsistent :
    {F : Lookup File} {I : Lookup String} (k s : String) (d g : File)
    → IsConsistent F I
    → I k ≡ some s
    → F s ≡ some d
    → s ≢ g.signature
    → ((j : String) → contains g.keys j ≡ (lists (F g.signature) j || k == j))
    → IsConsistent (drop_key (update F g.signature g) s k d) (update I k g.signature)
unfolding drop_key
move_key-IsConsistent {F} {I} k s d g c ik fs other listed =
    let ls = without k d.keys in
    rw (dropped-update F s d g.signature other g ls, ← update-erase I k g.signature)
      (add_key-IsConsistent (drop_key-IsConsistent c k s d ik fs) k g (rw (eq_refl k) refl)
        (λ j. rw (dropped_other F s d g.signature other ls) (listed j)))

-- A file is stored anew with the keys that it has.
pub touch-IsConsistent :
    {F : Lookup File} {I : Lookup String} (s : String) (f g : File)
    → IsConsistent F I
    → F s ≡ some f
    → g.keys ≡ f.keys
    → g.signature ≡ f.signature
    → IsConsistent (update F g.signature g) I
touch-IsConsistent {F} {I} s f g c fs keys sig =
    let at : g.signature ≡ s = sig ∙ c.signed s f fs in
    record {
      indexed = λ k s' e.
          let (f', found, h) = c.indexed k s' e in
          elim (Bool-cases (g.signature == s')) [
            | inl same ↦ (g, rw same, rw keys (ground (arith, eq_iff g.signature s')))
            | inr other ↦ (f', rw (other, found), h)
          ];
      owned = λ s' k f' e h. ground (arith, eq_iff g.signature s', c.owned s' k f', c.owned s k f);
      signed = λ s' f' e. ground (arith, eq_iff g.signature s', c.signed s' f');
    }

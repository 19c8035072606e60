-- ===== src/Assoc.antt =====
-- Go's `map[string]V` as an association list, of which the program never uses the order.
use rebost.Prelude.{
  String, ◌==◌, ◌≡◌, refl, Bool, false, Option, none, some, List, [], ◌∷◌, contains, if◌then◌else◌,
  arith, eq_iff, eq_refl, inl, inr, Bool-cases, ◌∙◌,
}

abbrev pub Assoc : Type 0 → Type 0
Assoc V = List (String × V)

module _ {V : Type 0} where
  abbrev pub look : Assoc V → String → Option V
  look [] j = none
  look ((k, v) ∷ m) j = let rest = look m j in if k == j then some v else rest

  -- `delete(m, k)`
  abbrev pub cut : Assoc V → String → Assoc V
  cut [] j = []
  cut ((k, v) ∷ m) j = let rest = cut m j in if k == j then rest else (k, v) ∷ rest

  -- `m[k] = v`
  abbrev pub set : Assoc V → String → V → Assoc V
  set m k v = (k, v) ∷ cut m k

  pub look-cut :
      (m : Assoc V) (k j : String) → look (cut m k) j ≡ (if k == j then none else look m j)
  look-cut [] k j = ground arith
  look-cut ((x, v) ∷ m) k j = ground (arith, look-cut m k j, eq_iff x k, eq_iff x j, eq_iff k j)

  pub look-set :
      (m : Assoc V) (k : String) (v : V) (j : String)
      → look (set m k v) j ≡ (if k == j then some v else look m j)
  look-set m k v j = ground (arith, look-cut m k j)

  -- A loop that deletes, or sets to one value, each of some keys.
  unfoldable pub cut_all : Assoc V → List String → Assoc V
  cut_all m [] = m
  cut_all m (k ∷ ks) = cut_all (cut m k) ks

  unfoldable pub set_all : Assoc V → List String → V → Assoc V
  set_all m [] v = m
  set_all m (k ∷ ks) v = set_all (set m k v) ks v

  pub look-cut_all :
      (m : Assoc V) (ks : List String) (j : String)
      → look (cut_all m ks) j ≡ (if contains ks j then none else look m j)
  unfolding cut_all contains
  look-cut_all m [] j = refl
  look-cut_all m (k ∷ ks) j = ground (arith, look-cut_all (cut m k) ks j, look-cut m k j)

  pub look-set_all :
      (m : Assoc V) (ks : List String) (v : V) (j : String)
      → look (set_all m ks v) j ≡ (if contains ks j then some v else look m j)
  unfolding set_all contains
  look-set_all m [] v j = refl
  look-set_all m (k ∷ ks) v j = ground (arith, look-set_all (set m k v) ks v j, look-set m k v j)

  -- The entries that satisfy a test.
  unfoldable pub filter : (String → V → Bool) → Assoc V → Assoc V
  filter f [] = []
  filter f ((k, v) ∷ m) = let rest = filter f m in if f k v then (k, v) ∷ rest else rest

  unfoldable pub keys : Assoc V → List String
  keys [] = []
  keys ((k, v) ∷ m) = k ∷ keys m

-- What a test says of the entry of a key.
abbrev pub meets {ℓ} : {V : Type ℓ} → (V → Bool) → Option V → Bool
meets f none = false
meets f (some v) = f v

-- No key has two entries.
abbrev pub IsMap : {V : Type 0} → Assoc V → Type 0
IsMap [] = Unit {0}
IsMap ((k, v) ∷ m) = (look m k ≡ none) × IsMap m

module _ {V : Type 0} where
  cut-IsMap : (m : Assoc V) (k : String) → IsMap m → IsMap (cut m k)
  cut-IsMap [] k d = d
  cut-IsMap ((x, v) ∷ m) k d = elim (Bool-cases (x == k)) [
    | inl e ↦ rw e (cut-IsMap m k d.1)
    | inr e ↦ rw e (look-cut m k x ∙ ground (arith, d.0, eq_iff x k, eq_iff k x), cut-IsMap m k d.1)
  ]

  set-IsMap : (m : Assoc V) (k : String) (v : V) → IsMap m → IsMap (set m k v)
  set-IsMap m k v d = (look-cut m k k ∙ rw (eq_refl k) refl, cut-IsMap m k d)

  pub cut_all-IsMap : (m : Assoc V) (ks : List String) → IsMap m → IsMap (cut_all m ks)
  unfolding cut_all
  cut_all-IsMap m [] d = d
  cut_all-IsMap m (k ∷ ks) d = cut_all-IsMap (cut m k) ks (cut-IsMap m k d)

  pub set_all-IsMap : (m : Assoc V) (ks : List String) (v : V) → IsMap m → IsMap (set_all m ks v)
  unfolding set_all
  set_all-IsMap m [] v d = d
  set_all-IsMap m (k ∷ ks) v d = set_all-IsMap (set m k v) ks v (set-IsMap m k v d)

module _ {V : Type 0} (f : String → V → Bool) where
  pub filter-none : (m : Assoc V) (k : String) → look m k ≡ none → look (filter f m) k ≡ none
  unfolding filter
  filter-none [] k e = refl
  filter-none ((x, v) ∷ m) k e = ground (arith, filter-none m k)

  pub filter-IsMap : (m : Assoc V) → IsMap m → IsMap (filter f m)
  unfolding filter
  filter-IsMap [] d = d
  filter-IsMap ((x, v) ∷ m) d = elim (Bool-cases (f x v)) [
    | inl e ↦ rw e (filter-none m x d.0, filter-IsMap m d.1)
    | inr e ↦ rw e (filter-IsMap m d.1)
  ]

  pub filter_absent :
      (m : Assoc V) (k : String) → look m k ≡ none → contains (keys (filter f m)) k ≡ false
  unfolding filter keys contains
  filter_absent [] k e = refl
  filter_absent ((x, v) ∷ m) k e = ground (arith, filter_absent m k)

  pub filter_present :
      (m : Assoc V) (k : String) → IsMap m → contains (keys (filter f m)) k ≡ meets (f k) (look m k)
  unfolding filter keys contains
  filter_present [] k d = refl
  filter_present ((x, v) ∷ m) k d =
      ground (arith, eq_iff x k, filter_absent m k, filter_absent m x, filter_present m k)

  pub look-filter :
      (m : Assoc V) (k : String)
      → IsMap m
      → look (filter f m) k ≡ (if meets (f k) (look m k) then look m k else none)
  unfolding filter
  look-filter [] k d = refl
  look-filter ((x, v) ∷ m) k d = ground (arith, eq_iff x k, look-filter m k)

-- ===== src/Catalog.antt =====
-- The view of a volume's buckets that its operations are specified by: which file a signature has,
-- and which signature a key has. It forgets how a bucket is laid out.
pub mod Consistency
use rebost.Prelude.{
  String, ◌==◌, ◌≡◌, Option, none, some, fun_ext, List, [], ◌∷◌, without, if◌then◌else◌,
}
use rebost.Platform.{Platform, IsBolt}
use rebost.File.{File}

abbrev pub Lookup : Type 0 → Type 0
Lookup V = String → Option V

module _ {V : Type 0} where
  abbrev pub update : Lookup V → String → V → Lookup V
  update f k v j = if k == j then some v else f j

  abbrev pub erase : Lookup V → String → Lookup V
  erase f k j = if k == j then none else f j

module _ ⦃p : Platform⦄ (b : IsBolt) {V : Type 0} where
  pub get-put : (m : p.Bucket V) (k : String) (v : V) → p.get (p.put m k v) ≡ update (p.get m) k v
  get-put m k v = fun_ext (b.get-put m k v)

  pub get-delete : (m : p.Bucket V) (k : String) → p.get (p.delete m k) ≡ erase (p.get m) k
  get-delete m k = fun_ext (b.get-delete m k)

-- The file `d` of the signature `s` is left with the keys `ls`: it goes with its last key.
abbrev pub dropped : Lookup File → String → File → List String → Lookup File
dropped F s d [] = erase F s
dropped F s d (x ∷ xs) = update F s (record d { keys = x ∷ xs })

unfoldable pub drop_key : Lookup File → String → String → File → Lookup File
drop_key F s k d = dropped F s d (without k d.keys)

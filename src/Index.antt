-- ===== src/Index.antt =====
-- idxkey/idxkey.go, idxttl/idxttl.go and idxvolume/idxvolume.go: the indexes of the files.
pub mod Signatures
use rebost.Prelude.{String, List, [], ◌∷◌, ◌++◌, contains, if◌then◌else◌}
use rebost.Platform.{Time}

pub record IdxKey : Type 0 where
  pub key : String
  pub value : String

pub record IdxTtl : Type 0 where
  pub expires_at : Time
  pub signatures : List String

pub record IdxVolume : Type 0 where
  pub volume_id : String
  pub signatures : List String

-- The loop of `IDXTTL.AddSignatures`: `seen` are the keys of `mapSig`.
unfoldable pub add_loop : List String → List String → List String → List String
unfolding contains
add_loop seen sigs [] = sigs
add_loop seen sigs (s ∷ ss) =
    let seen_before = contains seen s in
    add_loop (if seen_before then seen else s ∷ seen) (if seen_before then sigs else sigs ++ s ∷ [])
      ss

unfoldable pub add_signatures : IdxTtl → List String → IdxTtl
unfolding add_loop
add_signatures i ss = record i { signatures = add_loop i.signatures i.signatures ss }

unfoldable pub new_idxttl : Time → List String → IdxTtl
unfolding add_signatures
new_idxttl ea ss = add_signatures (record { expires_at = ea; signatures = [] }) ss

unfoldable pub add_signature : IdxVolume → String → IdxVolume
unfolding contains
add_signature i sig =
    if contains i.signatures sig then i else record i { signatures = i.signatures ++ sig ∷ [] }

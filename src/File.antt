-- ===== src/File.antt =====
-- file/file.go: a stored file, by the hash of its content, and where its content lies on disk.
pub mod Paths
use rebost.Prelude.{String, ◌==◌, ◌<>◌, List, [], without, if◌then◌else◌, ℤ}
use rebost.Exec.{Result, ok, panic}
use rebost.Platform.{Time, add}

pub record File : Type 0 where
  pub keys : List String
  pub signature : String
  pub replica : ℤ
  pub volume_ids : List String
  pub size : ℤ
  pub ttl : ℤ
  pub created_at : Time

-- `path.Join(base, elem)` for a base that is clean and an element that is a plain name.
unfoldable pub join : String → String → String
join base elem = if base == "" then elem else base <> "/" <> elem

-- The loop takes the signature two bytes at a time; a last byte alone is left out.
unfoldable pub path : String → String → String
unfolding join
path base String.[] = base
path base (String.◌∷◌ a String.[]) = base
path base (String.◌∷◌ a (String.◌∷◌ b sig)) =
    path (join base (String.◌∷◌ a (String.◌∷◌ b String.[]))) sig

unfoldable pub file_path : File → String → String
unfolding path
file_path f base = path base f.signature

-- `make([]string, 0, len(f.VolumeIDs)-1)` panics on an empty list.
unfoldable pub delete_volume_id : File → String → Result File
delete_volume_id f vid = elim f.volume_ids [
  | [] ↦ panic
  | _ ↦ ok (record f { volume_ids = without vid f.volume_ids })
]

unfoldable pub expires_at : File → Time
expires_at f = add f.created_at f.ttl

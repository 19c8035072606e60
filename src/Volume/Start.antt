-- ===== src/Volume/Start.antt =====
-- `New` of volume/volume.go, and the loop that it starts to update the state.
pub mod Identity
use Prim.Native.Char.{Char}
use rebost.Prelude.{
  ℕ, String, ◌==◌, Option, none, some, List, [], ◌∷◌, take, length, ltb, eqb, if◌then◌else◌, ℤ, pos,
  minus_one, wrap,
}
use rebost.Exec.{Error, Result, ok, err, panic, Exec, of_error, check, ◌>>=◌, ◌>>◌}
use rebost.Platform.{Platform, Bytes}
use rebost.File.{join}
use rebost.BoltDb.Uow.{write, Store, start_uow}
use rebost.Volume.Defs.{Volume, Inputs, in_uow}
use rebost.Volume.Reset.{Disk, calculate_size, create_id, ignore_error}

abbrev pub onto_first : Char → List String → List String
onto_first c [] = String.◌∷◌ c String.[] ∷ []
onto_first c (s ∷ ss) = String.◌∷◌ c s ∷ ss

-- `strings.Split(root, ":")`
unfoldable pub split_colons : String → List String
split_colons String.[] = "" ∷ []
split_colons (String.◌∷◌ c s) =
    let rest = split_colons s in
    if String.◌∷◌ c String.[] == ":" then "" ∷ rest else onto_first c rest

abbrev pub with_size : String → Result ℕ → Result (String × ℤ)
with_size root (ok b) = ok (root, wrap (pos b))
with_size root (err e) = err e
with_size root panic = panic

-- The directory and the size, -1 if none is given; `to_bytes` is `bytefmt.ToBytes`.
unfoldable pub parse_root : (String → Result ℕ) → String → List String → Result (String × ℤ)
parse_root to_bytes root (dir ∷ size ∷ rest) = with_size dir (to_bytes size)
parse_root to_bytes root _ = ok (root, minus_one)

-- `io.ReadFull` into 36 bytes, and `string(bid)`.
unfoldable pub read_id : (Bytes → String) → Bytes → Result String
read_id text_of c =
    if ltb (length c) 36
    then err (if eqb (length c) 0 then "EOF" else "unexpected EOF")
    else ok (text_of (take 36 c))

module _ ⦃p : Platform⦄ where
  -- The ID is created where there is no file with one.
  unfoldable pub open_id : String → (Bytes → String) → String → Option Bytes → Exec p.Fs String
  unfolding create_id read_id
  open_id uuid text_of id_path none fs = create_id uuid id_path fs
  open_id uuid text_of id_path (some c) fs = (read_id text_of c, fs)

  abbrev pub on_store_fs : {A : Type 0} → Exec p.Fs A → Exec Store A
  on_store_fs m s = let (r, fs) = m s.fs in (r, record s { fs = fs })

  abbrev pub make_dir : String → Exec Store (Unit {0})
  make_dir dir = on_store_fs λ fs. let (e, fs') = p.mkdir_all fs dir in (of_error e, fs')

  unfoldable pub open_root : (Bytes → String) → Inputs → Disk → String → ℤ → Exec Store Volume
  unfolding open_id calculate_size
  open_root text_of i disk root ts = do
    make_dir (join root "file")
    make_dir (join root "tmps")
    id ←
        on_store_fs
          (λ fs. open_id i.file_uuid text_of (join root "id") (p.read fs (join root "id")) fs)
    λ s. (ok tt, record s { id = id })
    start_uow i.outcome write (calculate_size disk i.now ts)
    λ s. (
      ok (record {
        file_dir = join root "file";
        temp_dir = join root "tmps";
        root = root;
        total_size = ts;
        store = s;
      }),
      s,
    )

  unfoldable pub new :
      (String → Result ℕ) → (Bytes → String) → Inputs → Disk → String → Exec Store Volume
  unfolding parse_root split_colons open_root
  new to_bytes text_of i disk root = do
    r ← check (parse_root to_bytes root (split_colons root))
    open_root text_of i disk r.0 r.1

  -- One tick of the loop: the error of `calculateSize` is logged.
  unfoldable pub update_state_tick : Inputs → Disk → Exec Volume (Unit {0})
  unfolding calculate_size
  update_state_tick i disk v =
      in_uow i write (ignore_error (calculate_size disk i.now v.total_size)) v

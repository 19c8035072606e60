-- ===== src/Tests/Memory.antt =====
-- A platform in memory: buckets and files are association lists. No code of the program is here.
use rebost.Prelude.{
  String, ◌<>◌, ◌==◌, ◌≡◌, refl, ◌≢◌, Bool, true, false, Option, none, some, [], ◌∷◌, length, eqb,
  if◌then◌else◌, arith, ap, ne_of_test,
}
use rebost.Assoc.{Assoc, look, cut, look-cut, look-set}
use rebost.Exec.{Error, not_found}
use rebost.Platform.{Platform, Bytes, IsBolt, IsAfero}
use rebost.BoltDb.KeyGenerate.{decimal}

-- An empty key is refused.
abbrev pub refusal : String → Option Error
refusal k = if k == "" then some "key required" else none

abbrev text_of : Option Error → Error
text_of none = ""
text_of (some e) = e

refused-ne : (b : Bool) → (if b then some "key required" else none) ≢ some not_found
refused-ne true e = ne_of_test "key required" not_found refl (ap text_of e)
refused-ne false e = ne_of_test "" not_found refl (ap text_of e)

pub refusal-ne : (k : String) → refusal k ≢ some not_found
refusal-ne k = refused-ne (k == "")

abbrev pub moved : Option Bytes → Assoc Bytes → String → String → Option Error × Assoc Bytes
moved none fs a b = (some "file does not exist", fs)
moved (some c) fs a b = (none, (b, c) ∷ cut (cut fs a) b)

abbrev pub removed : Option Bytes → Assoc Bytes → String → Option Error × Assoc Bytes
removed none fs n = (some "file does not exist", fs)
removed (some c) fs n = (none, cut fs n)

instance abbrev pub memory : Platform
memory = record {
  Bucket = Assoc;
  empty = [];
  get = look;
  refuses = λ k v. refusal k;
  put = λ m k v. (k, v) ∷ cut m k;
  delete = cut;
  entries = λ m. m;
  key_le = λ j k. true;
  delete_bucket = λ name. none;
  create_bucket = λ name. none;
  Fs = Assoc Bytes;
  read = look;
  store = λ fs n c. (none, (n, c) ∷ cut fs n);
  rename = λ fs a b. moved (look fs a) fs a b;
  remove = λ fs n. removed (look fs n) fs n;
  remove_all = λ fs n. (none, cut fs n);
  mkdir_all = λ fs n. (none, fs);
  missing = λ n. "open " <> n;
  format = λ t. decimal t.instant;
  parse = λ layout value. none;
  sha1 = λ c. if eqb (length c) 3 then "a1b2" else "c3d4";
}

pub memory-IsBolt : IsBolt
memory-IsBolt = record {
  get-empty = λ k. refl;
  get-put = look-set;
  get-delete = look-cut;
  refuses-ne = λ k v. refusal-ne k;
}

look-moved :
    (o : Option Bytes) (fs : Assoc Bytes) (a b j : String)
    → look fs a ≡ o
    → (moved o fs a b).0 ≡ none
    → look (moved o fs a b).1 j ≡ (if b == j then look fs a else if a == j then none else look fs j)
look-moved none fs a b j e h = absurd (cc h)
look-moved (some c) fs a b j e h = ground (arith, look-cut (cut fs a) b j, look-cut fs a j)

look-removed :
    (o : Option Bytes) (fs : Assoc Bytes) (n j : String)
    → (removed o fs n).0 ≡ none
    → look (removed o fs n).1 j ≡ (if n == j then none else look fs j)
look-removed none fs n j h = absurd (cc h)
look-removed (some c) fs n j h = look-cut fs n j

pub memory-IsAfero : IsAfero
memory-IsAfero = record {
  read-store = λ fs n c j h. look-set fs n c j;
  read-rename = λ fs a b j ne h. look-moved (look fs a) fs a b j refl h;
  read-remove = λ fs n j h. look-removed (look fs n) fs n j h;
  read-mkdir_all = λ fs n j. refl;
}

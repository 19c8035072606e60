-- ===== src/Platform.antt =====
-- What the program calls and does not implement: the key-value store under the repositories
-- (go.etcd.io/bbolt), the file system (github.com/spf13/afero), the text form of instants and the
-- hash of contents. Their operations are one record, an instance argument of the definitions.
use rebost.Prelude.{
  ℕ, String, ◌==◌, ◌≡◌, ◌≢◌, Option, none, some, List, if◌then◌else◌, ℤ, pos, ◌+ℤ◌, ltb_ℤ, eqb_ℤ,
  Bool,
}
use rebost.Exec.{Error, not_found}

-- `time.Time`: nanoseconds since the zero time, and the offset of the location it is shown in.
pub record Time : Type 0 where
  pub instant : ℤ
  pub zone : ℤ

abbrev pub zero_time : Time
zero_time = record { instant = pos 0; zone = pos 0 }

abbrev pub is_zero : Time → Bool
is_zero t = eqb_ℤ t.instant (pos 0)

-- `t.Add(d)`; `time.Time` holds far more than any `time.Duration`, so there is no wrap-around.
unfoldable pub add : Time → ℤ → Time
add t d = record t { instant = t.instant +ℤ d }

abbrev pub before : Time → Time → Bool
before t u = ltb_ℤ t.instant u.instant

abbrev pub Bytes : Type 0
Bytes = List ℕ

pub record Platform : Type 1 where
  -- A bucket holds values by key. A value stands for the JSON text that it is marshalled to.
  pub Bucket : Type 0 → Type 0
  pub empty : {V : Type 0} → Bucket V
  pub get : {V : Type 0} → Bucket V → String → Option V
  -- `Bucket.Put` refuses some keys and values (an empty key, a size out of bounds).
  pub refuses : {V : Type 0} → String → V → Option Error
  pub put : {V : Type 0} → Bucket V → String → V → Bucket V
  pub delete : {V : Type 0} → Bucket V → String → Bucket V
  -- The entries in the order in which a cursor visits them, and the order of two keys.
  pub entries : {V : Type 0} → Bucket V → List (String × V)
  pub key_le : String → String → Bool
  pub delete_bucket : String → Option Error
  pub create_bucket : String → Option Error
  -- The file system: an operation returns its error, nil if it succeeds, and the new state.
  pub Fs : Type 0
  pub read : Fs → String → Option Bytes
  -- `Create`, and the writes of a content into the new file; the error is that of `Create`, or of the
  -- writes where the caller looks at it.
  pub store : Fs → String → Bytes → Option Error × Fs
  pub rename : Fs → String → String → Option Error × Fs
  pub remove : Fs → String → Option Error × Fs
  pub remove_all : Fs → String → Option Error × Fs
  pub mkdir_all : Fs → String → Option Error × Fs
  -- The error of `Open` on a file that is not there.
  pub missing : String → Error
  -- `t.Format(time.RFC3339)` and `time.Parse(layout, value)`.
  pub format : Time → String
  pub parse : String → String → Option Time
  -- `fmt.Sprintf("%x", sha1.Sum(content))`
  pub sha1 : Bytes → String

-- Buckets are maps.
pub record IsBolt ⦃p : Platform⦄ : Type 1 where
  pub get-empty : {V : Type 0} (k : String) → p.get (p.empty {V = V}) k ≡ none
  pub get-put :
      {V : Type 0} (m : p.Bucket V) (k : String) (v : V) (j : String)
      → p.get (p.put m k v) j ≡ (if k == j then some v else p.get m j)
  pub get-delete :
      {V : Type 0} (m : p.Bucket V) (k j : String)
      → p.get (p.delete m k) j ≡ (if k == j then none else p.get m j)
  -- No refusal reads "not found".
  pub refuses-ne : {V : Type 0} (k : String) (v : V) → p.refuses k v ≢ some not_found

-- What an operation on files does where it succeeds, and that it changes no file where it fails.
pub record IsAfero ⦃p : Platform⦄ : Type 0 where
  pub read-store :
      (fs : p.Fs) (n : String) (c : Bytes) (j : String)
      → (p.store fs n c).0 ≡ none
      → p.read (p.store fs n c).1 j ≡ (if n == j then some c else p.read fs j)
  pub read-rename :
      (fs : p.Fs) (a b j : String)
      → a ≢ b
      → (p.rename fs a b).0 ≡ none
      → p.read (p.rename fs a b).1 j
        ≡ (if b == j then p.read fs a else if a == j then none else p.read fs j)
  pub read-remove :
      (fs : p.Fs) (n j : String)
      → (p.remove fs n).0 ≡ none
      → p.read (p.remove fs n).1 j ≡ (if n == j then none else p.read fs j)
  pub read-mkdir_all : (fs : p.Fs) (n j : String) → p.read (p.mkdir_all fs n).1 j ≡ p.read fs j

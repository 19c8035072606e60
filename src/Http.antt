-- ===== src/Http.antt =====
-- HTTP as client/ and storing/ use it. Not implemented here, and parameters: the client, the server
-- (go-kit/kit/transport/http) and the router (gorilla/mux), and the texts of numbers and times.
pub mod Laws
use rebost.Prelude.{
  ℕ, String, Bool, true, false, Option, none, some, List, [], ◌∷◌, ◌++◌, ◌&&◌, ℤ, if◌then◌else◌,
}
use rebost.Exec.{Error, Result, ok, err, panic, Exec}
use rebost.Platform.{Time, Bytes}
use rebost.Assoc.{Assoc, look}
use rebost.Model.{ModelConfig}

pub data Method : Type 0 where
  put get delete head patch : Method

abbrev pub same_method : Method → Method → Bool
same_method put put = true
same_method get get = true
same_method delete delete = true
same_method head head = true
same_method patch patch = true
same_method _ _ = false

-- The JSON texts that the nodes send: `{"error": …}`, the two bodies under "data", and the body of
-- the update of a replica.
pub data Json : Type 0 where
  error_json : Error → Json
  config_json : ModelConfig → Json
  volume_json : String → Json
  replica_json : List String → ℤ → Json

-- `bytes` has what is no JSON text, and `multipart` the parts of a form, of which each can be read.
pub data Body : Type 0 where
  empty : Body
  bytes : Bytes → Body
  text : String → Body
  json : Json → Body
  multipart : List Bytes → Body

-- `key` is `mux.Vars(r)["key"]`.
pub record Request : Type 0 where
  pub method : Method
  pub path : String
  pub query : Assoc String
  pub body : Body
  pub key : String

-- Two headers are read: "Content-Type", of which there may be none, and the ID of a volume.
pub record Response : Type 0 where
  pub status : ℕ
  pub content_type : Option String
  pub volume_id : String
  pub body : Body

abbrev pub Handler : Type 0 → Type 0
Handler W = Request → Exec W Response

pub record Route (W : Type 0) : Type 0 where
  pub template : String
  pub method : Method
  pub handler : Handler W

-- `strconv.Itoa` and `Atoi`, `Duration.String` and `ParseDuration`, `Time.Format` and `time.Parse`,
-- `http.DetectContentType`, the error of `Decode` for a body that is no JSON text, and the bytes of a
-- body that is one.
pub record Texts : Type 0 where
  pub itoa : ℤ → String
  pub atoi : String → Option ℤ
  pub duration_text : ℤ → String
  pub parse_duration : String → Option ℤ
  pub format_time : String → Time → String
  pub parse_time : String → String → Option Time
  pub detect : Bytes → String
  pub is_json_type : String → Bool
  pub syntax_error : Body → Error
  pub raw : Body → Bytes

abbrev pub rfc3339 : String
rfc3339 = "2006-01-02T15:04:05Z07:00"

abbrev pub json_type : String
json_type = "application/json; charset=utf-8"

-- `url.Values.Get`: a parameter that is not there is empty.
abbrev pub text_or_empty : Option String → String
text_or_empty none = ""
text_or_empty (some s) = s

abbrev pub query_get : Request → String → String
query_get r name = text_or_empty (look r.query name)

-- `json.NewDecoder(body).Decode`, whose result has the fields that the text names.
unfoldable pub decode_json : Texts → Body → Result Json
decode_json t (json j) = ok j
decode_json t empty = err (t.syntax_error empty)
decode_json t (bytes b) = err (t.syntax_error (bytes b))
decode_json t (text s) = err (t.syntax_error (text s))
decode_json t (multipart ps) = err (t.syntax_error (multipart ps))

-- `kithttp.NewServer`, the endpoint of `kithttp.NewClient` for the handler at its host, and
-- `mux.NewRouter` with its routes and its `NotFoundHandler`. `vars` is the variable "key" of a path
-- that matches a template.
pub record Kit (W : Type 0) : Type 1 where
  pub server :
      {Q A : Type 0} → (Request → Result Q) → (Q → Exec W A) → (A → Result Response) → Handler W
  pub client :
      {Q A : Type 0}
      → Handler W
      → Method
      → String
      → (Request → Q → Result Request)
      → (Response → Result A)
      → Q
      → Exec W A
  pub router : List (Route W) → Handler W → Handler W
  pub vars : String → String → Option String

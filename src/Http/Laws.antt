-- ===== src/Http/Laws.antt =====
-- What the code relies on: the documented behaviour of the client, the server and the router.
use rebost.Prelude.{
  String, ◌≡◌, true, false, Option, none, some, List, [], ◌∷◌, ℤ, if◌then◌else◌, ◌<>◌,
}
use rebost.Exec.{Error, Result, ok, err, Exec}
use rebost.Platform.{Time, Bytes}
use rebost.Http.{
  Method, Request, Response, Route, Handler, Kit, Texts, same_method, rfc3339, empty, text,
}

-- The request before it is encoded, and the answer of the server to an error of an endpoint.
abbrev pub new_request : Method → String → Request
new_request m path = record { method = m; path = path; query = []; body = empty; key = "" }

abbrev pub failure : Error → Response
failure e = record {
  status = 500;
  content_type = some "text/plain; charset=utf-8";
  volume_id = "";
  body = text e;
}

module _ {W : Type 0} (vars : String → String → Option String) where
  abbrev pub try_route :
      Request → Route W → Option String → Option (Handler W × String) → Option (Handler W × String)
  try_route r x none rest = rest
  try_route r x (some k) rest = if same_method r.method x.method then some (x.handler, k) else rest

  -- The first route whose template and method are those of the request.
  unfoldable pub first_match : List (Route W) → Request → Option (Handler W × String)
  first_match [] r = none
  first_match (x ∷ xs) r =
      let rest = first_match xs r in try_route r x (vars x.template r.path) rest

module _ {W : Type 0} (kit : Kit W) where
  pub record IsKit : Type 1 where
    pub serves :
        {Q A : Type 0} (decode : Request → Result Q) (endpoint : Q → Exec W A)
        (encode : A → Result Response) (r : Request) (w : W) (q : Q) (a : A) (x : Response)
        → decode r ≡ ok q
        → (endpoint q w).0 ≡ ok a
        → encode a ≡ ok x
        → kit.server decode endpoint encode r w ≡ (ok x, (endpoint q w).1)
    pub fails :
        {Q A : Type 0} (decode : Request → Result Q) (endpoint : Q → Exec W A)
        (encode : A → Result Response) (r : Request) (w : W) (q : Q) (e : Error)
        → decode r ≡ ok q
        → (endpoint q w).0 ≡ err e
        → kit.server decode endpoint encode r w ≡ (ok (failure e), (endpoint q w).1)
    pub calls :
        {Q A : Type 0} (h : Handler W) (m : Method) (path : String)
        (encode : Request → Q → Result Request) (decode : Response → Result A) (q : Q) (w : W)
        (r : Request) (x : Response)
        → encode (new_request m path) q ≡ ok r
        → (h r w).0 ≡ ok x
        → kit.client h m path encode decode q w ≡ (decode x, (h r w).1)
    pub routes :
        (xs : List (Route W)) (missing : Handler W) (r : Request) (h : Handler W) (k : String)
        (w : W)
        → first_match kit.vars xs r ≡ some (h, k)
        → kit.router xs missing r w ≡ h (record r { key = k }) w

  -- The router reads a key back from the paths that have it.
  pub record IsRouted (key : String) : Type 0 where
    pub files : kit.vars "/files/{key:.*}" ("/files" <> "/" <> key) ≡ some key
    pub replicas : kit.vars "/replicas/{key:.*}" ("/replicas" <> "/" <> key) ≡ some key
    pub apart : kit.vars "/files/{key:.*}" ("/replicas" <> "/" <> key) ≡ none

  -- The path of the configuration is that of its route only.
  pub record FindsConfig : Type 0 where
    pub config : kit.vars "/config" "/config" ≡ some ""
    pub not_files : kit.vars "/files/{key:.*}" "/config" ≡ none
    pub not_replicas : kit.vars "/replicas/{key:.*}" "/config" ≡ none

-- The texts of a duration and of a time are read back.
pub record IsCarried (t : Texts) (ttl : ℤ) (ca : Time) : Type 0 where
  pub duration : t.parse_duration (t.duration_text ttl) ≡ some ttl
  pub time : t.parse_time rfc3339 (t.format_time rfc3339 ca) ≡ some ca

-- No content is taken for JSON, and the type that the code sets is.
pub record IsTyped (t : Texts) : Type 0 where
  pub detected : (b : Bytes) → t.is_json_type (t.detect b) ≡ false
  pub set : t.is_json_type "application/json; charset=utf-8" ≡ true

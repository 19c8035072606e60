-- ===== src/Remote.antt =====
-- A call of a client's method and the service of the node that it reaches, with client/ and storing/
-- put together: what goes through the request, the router, the endpoint and the response.
pub mod Files
pub mod Reads
pub mod Nodes
use rebost.Prelude.{
  String, ◌<>◌, [], ◌==◌, ◌≡◌, refl, ◌∙◌, sym, ap, false, some, ◌⊎◌, inl, inr, if◌then◌else◌,
  Bool-cases,
}
use rebost.Exec.{Result-cases, Error, Result, ok, err, panic, Exec}
use rebost.Http.{Method, Request, Response, Kit, Texts, empty}
use rebost.Http.Laws.{IsKit, new_request, first_match, failure}
use rebost.Server.{Service}
use rebost.Server.Handler.{make_handler, routes}
use rebost.Client.{Client, get_client}
use rebost.Client.Wire.{Endpoints, Reply, make_endpoints}
use rebost.Client.Methods.{Session, call}

-- A request that has only a key.
abbrev pub keyed : Method → String → String → Request
keyed m path key = record {
  method = m;
  path = path <> "/" <> key;
  query = [];
  body = empty;
  key = "";
}

pub ok_tt : {r : Result (Unit {0})} (a : Unit {0}) → r ≡ ok a → r ≡ ok tt
ok_tt tt e = e

-- Not a panic, and no error without a text.
pub record IsTold {A : Type 0} (r : Result A) : Type 0 where
  pub has_text : (e : Error) → r ≡ err e → (e == "") ≡ false
  pub calm : r ≡ panic → ⊥

module _ {W : Type 0} (kit : Kit W) (t : Texts) (s : Service W) where
  -- The handler of the node, behind the endpoints of the host whose turn it is.
  pub record IsTurn (c c' : Client (Endpoints W)) : Type 0 where
    pub turn : get_client c ≡ (ok (make_endpoints kit t (make_handler kit t s)), c')

  pub reached :
      (ik : IsKit kit) {Q A B C : Type 0} (m : Method) (path : String)
      (encode : Request → Q → Result Request) (decode : Response → Result A)
      (decode' : Request → Result B) (endpoint : B → Exec W C) (encode' : C → Result Response)
      (q : Q) (w : W) (r : Request) (k : String) (b : B) (a : C) (x : Response)
      → encode (new_request m path) q ≡ ok r
      → first_match kit.vars (routes kit t s) r ≡ some (kit.server decode' endpoint encode', k)
      → decode' (record r { key = k }) ≡ ok b
      → (endpoint b w).0 ≡ ok a
      → encode' a ≡ ok x
      → kit.client (make_handler kit t s) m path encode decode q w ≡ (decode x, (endpoint b w).1)
  unfolding make_handler
  reached ik m path encode decode decode' endpoint encode' q w r k b a x er fm db ea ex =
      let answered : make_handler kit t s r w ≡ (ok x, (endpoint b w).1) =
        ik.routes (routes kit t s) _ r (kit.server decode' endpoint encode') k w fm
        ∙ ik.serves decode' endpoint encode' (record r { key = k }) w b a x db ea ex in
      ik.calls (make_handler kit t s) m path encode decode q w r x er
        (ap (λ (y : Result Response × W). y.0) answered)
      ∙ ap (λ (y : Result Response × W). (decode x, y.1)) answered

  -- The endpoint of the node returns an error itself.
  pub reached_failed :
      (ik : IsKit kit) {Q A B C : Type 0} (m : Method) (path : String)
      (encode : Request → Q → Result Request) (decode : Response → Result A)
      (decode' : Request → Result B) (endpoint : B → Exec W C) (encode' : C → Result Response)
      (q : Q) (w : W) (r : Request) (k : String) (b : B) (e : Error)
      → encode (new_request m path) q ≡ ok r
      → first_match kit.vars (routes kit t s) r ≡ some (kit.server decode' endpoint encode', k)
      → decode' (record r { key = k }) ≡ ok b
      → (endpoint b w).0 ≡ err e
      → kit.client (make_handler kit t s) m path encode decode q w
        ≡ (decode (failure e), (endpoint b w).1)
  unfolding make_handler
  reached_failed ik m path encode decode decode' endpoint encode' q w r k b e er fm db ea =
      let answered : make_handler kit t s r w ≡ (ok (failure e), (endpoint b w).1) =
        ik.routes (routes kit t s) _ r (kit.server decode' endpoint encode') k w fm
        ∙ ik.fails decode' endpoint encode' (record r { key = k }) w b e db ea in
      ik.calls (make_handler kit t s) m path encode decode q w r (failure e) er
        (ap (λ (y : Result Response × W). y.0) answered)
      ∙ ap (λ (y : Result Response × W). (decode (failure e), y.1)) answered

  -- What a method makes of what its endpoint returns.
  abbrev pub method_result : {A : Type 0} → Result (Reply A) → Result A
  method_result (ok x) = if x.error == "" then ok x.value else err x.error
  method_result (err e) = err e
  method_result panic = panic

  -- What the endpoint of the host returns, and that this makes the result `out`.
  pub record Replies {B : Type 0} (endpoint : Endpoints W → Exec W (Reply B)) (w w' : W)
      (out : Result B) : Type 0 where
    pub reply : Result (Reply B)
    pub shows : method_result reply ≡ out
    pub returns : endpoint (make_endpoints kit t (make_handler kit t s)) w ≡ (reply, w')

  pub call-reply :
      {A : Type 0} {c' : Client (Endpoints W)} (sess : Session W)
      (endpoint : Endpoints W → Exec W (Reply A)) (r : Result (Reply A)) (w : W)
      → IsTurn sess.client c'
      → endpoint (make_endpoints kit t (make_handler kit t s)) sess.world ≡ (r, w)
      → call endpoint sess ≡ (method_result r, record { client = c'; world = w })
  call-reply sess endpoint (ok x) w turn e =
      rw (turn.turn, e)
        (elim (Bool-cases (x.error == "")) [ inl h ↦ rw h refl | inr h ↦ rw h refl ])
  call-reply sess endpoint (err x) w turn e = rw (turn.turn, e) refl
  call-reply sess endpoint panic w turn e = rw (turn.turn, e) refl

  -- From what the endpoint returns where the service returns a value and where it returns an error.
  pub call-told :
      {A B : Type 0} {c' : Client (Endpoints W)} (sess : Session W)
      (endpoint : Endpoints W → Exec W (Reply B)) (m : Exec W A) (out : Result B)
      → IsTurn sess.client c'
      → IsTold (m sess.world).0
      → ((a : A) → (m sess.world).0 ≡ ok a → Replies endpoint sess.world (m sess.world).1 out)
      → ((e : Error)
          → (m sess.world).0 ≡ err e
          → (e == "") ≡ false
          → Replies endpoint sess.world (m sess.world).1 out)
      → call endpoint sess ≡ (out, record { client = c'; world = (m sess.world).1 })
  call-told {B} {c'} sess endpoint m out turn told replies refuses =
      let seen = λ (h : Replies endpoint sess.world (m sess.world).1 out).
        call-reply sess endpoint h.reply (m sess.world).1 turn h.returns
        ∙ ap (λ (r : Result B). (r, record { client = c'; world = (m sess.world).1 })) h.shows in
      elim (Result-cases (m sess.world).0) [
        | inl (a, e) ↦ seen (replies a e)
        | inr (inl (x, e)) ↦ seen (refuses x e (told.has_text x e))
        | inr (inr e) ↦ absurd (told.calm e)
      ]

module _ {W : Type 0} (kit : Kit W) (t : Texts) (s : Service W) {B : Type 0}
    {endpoint : Endpoints W → Exec W (Reply B)} {w w' : W} {out : Result B} where
  pub returned :
      {b : B}
      → ok b ≡ out
      → endpoint (make_endpoints kit t (make_handler kit t s)) w
        ≡ (ok (record { value = b; error = "" }), w')
      → Replies kit t s endpoint w w' out
  returned o h = record { reply = _; shows = o; returns = h }

  pub refused :
      {b : B} {e : Error}
      → out ≡ err e
      → (e == "") ≡ false
      → endpoint (make_endpoints kit t (make_handler kit t s)) w
        ≡ (ok (record { value = b; error = e }), w')
      → Replies kit t s endpoint w w' out
  refused o text h = record { reply = _; shows = rw text (sym o); returns = h }

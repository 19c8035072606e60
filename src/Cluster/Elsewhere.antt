-- ===== src/Cluster/Elsewhere.antt =====
-- A file that only another node has.
use rebost.Prelude.{String, ◌≡◌, ◌≢◌, refl, ap, ◌∙◌, Bool, true, false, none, List, [], ◌∷◌, ◌++◌}
use rebost.Exec.{Result, ok, err, panic, not_found, continue}
use rebost.Platform.{Bytes}
use rebost.Http.{Kit, Texts}
use rebost.Http.Laws.{IsKit, IsRouted, IsTyped}
use rebost.Server
use rebost.Client.{Client}
use rebost.Client.Wire.{Endpoints}
use rebost.Client.Methods.{Session}
use rebost.Remote.{IsTold, IsTurn}
use rebost.Remote.Reads.{received, get_file-remote, has_file-remote}
use rebost.Storing.{
  Volumes, Cache, find_volume, pick, get_volume, from_cache, from_locals, from_nodes,
}
use rebost.Storing
use rebost.Cluster.{Both, Place, there, places}

-- No volume of a list answers that it has the key.
abbrev pub AllLack : {V : Type 0} → (V → Result (String × Bool)) → List V → Type 0
AllLack ask [] = Unit {0}
AllLack ask (v ∷ vs) = ((vid : String) → ask v ≢ ok (vid, true)) × AllLack ask vs

pick_past :
    {V : Type 0} (r : Result (String × Bool)) (v : V) (rest : Result (String × V))
    → ((vid : String) → r ≢ ok (vid, true))
    → pick r v rest ≡ rest
pick_past (ok (vid, true)) v rest h = absurd (h vid refl)
pick_past (ok (vid, false)) v rest h = refl
pick_past (err e) v rest h = refl
pick_past panic v rest h = refl

module _ {V : Type 0} (ask : V → Result (String × Bool)) where
  find_past : (vs ws : List V) → AllLack ask vs → find_volume ask (vs ++ ws) ≡ find_volume ask ws
  unfolding find_volume
  find_past [] ws h = refl
  find_past (v ∷ vs) ws h = pick_past (ask v) v _ h.0 ∙ find_past vs ws h.1

  find_none : (vs : List V) → AllLack ask vs → find_volume ask vs ≡ err not_found
  unfolding find_volume
  find_none [] h = refl
  find_none (v ∷ vs) h = pick_past (ask v) v _ h.0 ∙ find_none vs h.1

  find_first :
      (vs : List V) (v : V) (ws : List V) (vid : String)
      → AllLack ask vs
      → ask v ≡ ok (vid, true)
      → find_volume ask (vs ++ v ∷ ws) ≡ ok (vid, v)
  unfolding find_volume
  find_first vs v ws vid h e = find_past vs (v ∷ ws) h ∙ rw e refl

module _ {W V C : Type 0} ⦃ops : Volumes W V⦄ ⦃cache : Cache C⦄ where
  get_volume-elsewhere :
      (k vid : String) (v : V) (s : Storing.Service W V C)
      → cache.get s.cache k ≡ none
      → AllLack (λ u. ops.has_file u k s.world) s.locals
      → find_volume (λ u. ops.has_file u k s.world) s.nodes ≡ ok (vid, v)
      → get_volume k s ≡ (ok (vid, v), record s { cache = cache.add s.cache k vid })
  unfolding get_volume from_cache from_locals from_nodes
  get_volume-elsewhere k vid v s uncached locals found =
      ap (λ o. from_cache k o s) uncached
      ∙ ap (λ r. from_locals k r s) (find_none _ s.locals locals)
      ∙ ap (λ r. from_nodes k r s) found

module _ {X W L C : Type 0} (ops : Volumes X L) ⦃cache : Cache C⦄ (kit : Kit W) (ik : IsKit kit)
    (t : Texts) (typed : IsTyped t) (node : Server.Service W) (c : Client (Endpoints W))
    (turn : IsTurn kit t node c c) where
  -- Where neither the cache nor a local volume has the key, and the first node to answer that it has
  -- it is reached by `c`, `GetFile` returns what `GetFile` of the service of that node returns, over
  -- HTTP and with its exception of an empty content, and remembers the volume that the node named. The
  -- service of the node does not panic and returns no error without a text, the router reads the key
  -- back and no content is taken for JSON.
  pub get_file-elsewhere :
      (k vid : String) (s : Storing.Service (Both X W) (Place L W) C)
      (before after : List (Place L W))
      → IsRouted kit k
      → cache.get s.cache k ≡ none
      → AllLack (λ v. (places ops).has_file v k s.world) s.locals
      → AllLack (λ v. (places ops).has_file v k s.world) before
      → s.nodes ≡ before ++ there c ∷ after
      → (node.has_file k s.world.remote).0 ≡ ok (vid, true)
      → IsTold (node.get_file k s.world.remote).0
      → Storing.get_file ⦃ops = places ops⦄ k s ≡ (
        received (node.get_file k s.world.remote).0,
        record s {
          cache = cache.add s.cache k vid;
          world = record s.world { remote = (node.get_file k s.world.remote).1 };
        },
      )
  unfolding Storing.get_file
  get_file-elsewhere k vid s before after routed uncached locals lacking listed has told =
      let w = s.world.remote in
      let answered : (places ops).has_file (there c) k s.world ≡ ok (vid, true) =
        ap (λ (r : Result (String × Bool) × Session W). r.0)
          (has_file-remote kit ik t node (record { client = c; world = w }) c turn k routed
            (λ e. cc (has, e)))
        ∙ rw has refl in
      let found =
        find_first (λ v. (places ops).has_file v k s.world) before (there c) after vid lacking
          answered in
      let located =
        get_volume-elsewhere ⦃ops = places ops⦄ k vid (there c) s uncached locals
          (ap (find_volume (λ v. (places ops).has_file v k s.world)) listed ∙ found) in
      let fetched =
        get_file-remote kit ik t node (record { client = c; world = w }) c turn k routed typed
          told in
      ap
        (λ p.
          continue p.0 (λ r. Storing.on_world ⦃ops = places ops⦄ ((places ops).get_file r.1 k)) p.1)
        located
      ∙ ap
          (λ (r : Result Bytes × Session W). (
            r.0,
            record s {
              cache = cache.add s.cache k vid;
              world = record s.world { remote = r.1.world };
            },
          ))
          fetched

-- ===== src/Storing.antt =====
-- storing/service.go: a node finds the volume that has a key, and passes each call on to one. The
-- volumes are an interface, which local volumes and nodes of the cluster fulfil, over a world `W`
-- that holds the state of them all; the cache of hashicorp/golang-lru is one more parameter.
pub mod Finds
pub mod Answers
pub mod Replication
use rebost.Prelude.{
  ℕ, String, ◌==◌, Bool, true, false, not, Option, none, some, List, [], ◌∷◌, ℤ, pos, minus_one,
  eqb_ℤ, get_elem?, if◌then◌else◌,
}
use rebost.Exec.{Result, ok, err, panic, Exec, not_found, pure, raise, crash, ◌>>=◌, ◌>>◌}
use rebost.Platform.{Time, Bytes}
use rebost.Config.{Config}

-- `volume.Volume`, and what the service uses of `volume.Local`.
pub record Volumes (W V : Type 0) : Type 0 where
  pub create_file : V → String → Bytes → ℤ → ℤ → Time → Exec W (Unit {0})
  pub get_file : V → String → Exec W Bytes
  pub delete_file : V → String → Exec W (Unit {0})
  pub has_file : V → String → W → Result (String × Bool)
  pub update_file_replica : V → String → List String → ℤ → Exec W (Unit {0})
  pub id : V → W → String

-- The cache of the IDs of volumes by key.
pub record Cache (C : Type 0) : Type 0 where
  pub get : C → String → Option String
  pub add : C → String → String → C

-- `locals` and `nodes` list the volumes in the order in which their answers come in, and
-- `node_by_id` is `GetNodeWithVolumeByID` of the members.
pub record Service (W V C : Type 0) : Type 0 where
  pub cfg_replica : ℤ
  pub locals : List V
  pub nodes : List V
  pub node_by_id : String → Result V
  pub cache : C
  pub world : W

-- `New`: a service, and whether it starts its two loops; `new_arc` is `lru.NewARC`.
module _ {W V C : Type 0} where
  abbrev pub of_cache :
      Config → List V → List V → (String → Result V) → W → Result C → Result (Service W V C × Bool)
  of_cache cfg locals nodes node_by_id w (ok cache) = ok (
    record {
      cfg_replica = cfg.replica;
      locals = locals;
      nodes = nodes;
      node_by_id = node_by_id;
      cache = cache;
      world = w;
    },
    not (eqb_ℤ cfg.replica minus_one),
  )
  of_cache cfg locals nodes node_by_id w (err e) = err e
  of_cache cfg locals nodes node_by_id w panic = panic

  unfoldable pub new :
      (ℤ → Result C)
      → Config
      → List V
      → List V
      → (String → Result V)
      → W
      → Result (Service W V C × Bool)
  new new_arc cfg locals nodes node_by_id w =
      of_cache cfg locals nodes node_by_id w (new_arc cfg.cache.size)

-- An error of a volume is passed over, as is a volume that has not got the key; `HasFile` is taken
-- not to panic.
abbrev pub pick :
    {V : Type 0} → Result (String × Bool) → V → Result (String × V) → Result (String × V)
pick (ok (vid, true)) v rest = ok (vid, v)
pick (ok (vid, false)) v rest = rest
pick (err e) v rest = rest
pick panic v rest = rest

-- The answers come over one channel, and the first volume that has the key is taken.
unfoldable pub find_volume :
    {V : Type 0} → (V → Result (String × Bool)) → List V → Result (String × V)
find_volume ask [] = err not_found
find_volume ask (v ∷ vs) = let rest = find_volume ask vs in pick (ask v) v rest

abbrev pub with_id : {V : Type 0} → String → Result V → Result (String × V)
with_id vid (ok v) = ok (vid, v)
with_id vid (err e) = err e
with_id vid panic = panic

-- The node has no such key, but the cache may tell who has.
abbrev pub remembered : Option String → String × Bool
remembered none = ("", false)
remembered (some vid) = (vid, false)

abbrev pub answer : {V : Type 0} → String × Bool → Result (String × V) → Result (String × Bool)
answer known (ok (vid, v)) = ok (vid, true)
answer known (err e) = if e == not_found then ok known else err e
answer known panic = panic

module _ {W V C : Type 0} ⦃ops : Volumes W V⦄ ⦃cache : Cache C⦄ where
  abbrev pub on_world : {A : Type 0} → Exec W A → Exec (Service W V C) A
  on_world m s = let (r, w) = m s.world in (r, record s { world = w })

  -- `rand.Intn` panics where there is no volume; `chosen` is its result.
  unfoldable pub get_local_volume : ℕ → Exec (Service W V C) V
  get_local_volume chosen s = elim (get_elem? s.locals chosen) [
    | none ↦ (panic, s)
    | some v ↦ (ok v, s)
  ]

  -- No node has it either: "not found"; and a node that has it is remembered.
  unfoldable pub from_nodes : String → Result (String × V) → Exec (Service W V C) (String × V)
  from_nodes k (ok (vid, v)) s = (ok (vid, v), record s { cache = cache.add s.cache k vid })
  from_nodes k (err e) s = (if e == not_found then err not_found else err e, s)
  from_nodes k panic s = (panic, s)

  unfoldable pub from_locals : String → Result (String × V) → Exec (Service W V C) (String × V)
  unfolding from_nodes find_volume
  from_locals k (ok (vid, v)) s = (ok (vid, v), s)
  from_locals k (err e) s =
      (if e == not_found
          then from_nodes k (find_volume (λ v. ops.has_file v k s.world) s.nodes)
          else raise e)
        s
  from_locals k panic s = (panic, s)

  unfoldable pub from_cache : String → Option String → Exec (Service W V C) (String × V)
  unfolding from_locals
  from_cache k (some vid) s = (with_id vid (s.node_by_id vid), s)
  from_cache k none s = from_locals k (find_volume (λ v. ops.has_file v k s.world) s.locals) s

  unfoldable pub get_volume : String → Exec (Service W V C) (String × V)
  unfolding from_cache
  get_volume k s = from_cache k (cache.get s.cache k) s

  unfoldable pub create_file : ℕ → String → Bytes → ℤ → ℤ → Time → Exec (Service W V C) (Unit {0})
  unfolding get_local_volume
  create_file chosen k content rep ttl ca s =
      (do
        v ← get_local_volume chosen
        on_world
            (ops.create_file v k content (if eqb_ℤ rep (pos 0) then s.cfg_replica else rep) ttl ca))
        s

  unfoldable pub get_file : String → Exec (Service W V C) Bytes
  unfolding get_volume
  get_file k = do r ← get_volume k; on_world (ops.get_file r.1 k)

  unfoldable pub delete_file : String → Exec (Service W V C) (Unit {0})
  unfolding get_volume
  delete_file k = do r ← get_volume k; on_world (ops.delete_file r.1 k)

  unfoldable pub has_file : String → Exec (Service W V C) (String × Bool)
  unfolding find_volume
  has_file k s = (
    answer (remembered (cache.get s.cache k))
        (find_volume (λ v. ops.has_file v k s.world) s.locals),
    s,
  )

  -- `CreateReplica`; `noReplica` is 1.
  unfoldable pub create_replica_here : ℕ → String → Bytes → ℤ → Time → Exec (Service W V C) String
  unfolding get_local_volume
  create_replica_here chosen k content ttl ca s =
      (if eqb_ℤ s.cfg_replica minus_one then raise "can not store replicas" else (do
        v ← get_local_volume chosen
        on_world (ops.create_file v k content (pos 1) ttl ca)
        λ s'. (ok (ops.id v s'.world), s')))
        s

  unfoldable pub update_file_replica : String → List String → ℤ → Exec (Service W V C) (Unit {0})
  unfolding find_volume
  update_file_replica k vids replica s =
      (if eqb_ℤ s.cfg_replica minus_one
          then raise "can not store replicas"
          else elim (find_volume (λ v. ops.has_file v k s.world) s.locals) [
            | ok (vid, v) ↦ on_world (ops.update_file_replica v k vids replica)
            | err e ↦ raise e
            | panic ↦ crash
          ])
        s

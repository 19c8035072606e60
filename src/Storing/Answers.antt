-- ===== src/Storing/Answers.antt =====
-- What a node answers when it is asked for a key, and which volume it turns to.
use rebost.Prelude.{String, ◌≡◌, refl, Bool, true, false, Option, none, some, ◌⊎◌, inl, inr}
use rebost.Exec.{Result, ok, err, panic, not_found}
use rebost.Storing.{
  Volumes, Cache, Service, find_volume, from_nodes, from_locals, from_cache, get_volume, remembered,
  answer, has_file,
}
use rebost.Storing.Finds.{IsHolder, HasNone, FindOutcome, find_volume-Outcome}

-- How a volume answers at this state of the world.
abbrev pub asks : {W V : Type 0} ⦃ops : Volumes W V⦄ → String → W → V → Result (String × Bool)
asks ⦃ops = ops⦄ k w v = ops.has_file v k w

module _ {W V C : Type 0} ⦃ops : Volumes W V⦄ ⦃cache : Cache C⦄ where
  -- The volume is a local one, and nothing changed, or no local one has the key, it is a node, and
  -- it is remembered; or none has the key, and nothing changed.
  abbrev pub GetOutcome : String → Service W V C → Result (String × V) → Service W V C → Type 0
  GetOutcome k s (ok (vid, v)) s' =
      (IsHolder (asks k s.world) s.locals vid v × (s' ≡ s))
      ⊎ (HasNone (asks k s.world) s.locals
          × IsHolder (asks k s.world) s.nodes vid v
          × (s' ≡ record s { cache = cache.add s.cache k vid }))
  GetOutcome k s (err e) s' =
      (e ≡ not_found)
      × HasNone (asks k s.world) s.locals
      × HasNone (asks k s.world) s.nodes
      × (s' ≡ s)
  GetOutcome k s panic s' = ⊥

  nodes_outcome :
      (k : String) (s : Service W V C) (r : Result (String × V))
      → HasNone (asks k s.world) s.locals
      → FindOutcome (asks k s.world) s.nodes r
      → GetOutcome k s (from_nodes k r s).0 (from_nodes k r s).1
  unfolding from_nodes
  nodes_outcome k s (ok (vid, v)) lacks h = inr (lacks, h, refl)
  nodes_outcome k s (err e) lacks (same, h) = rw same (refl, lacks, h, refl)
  nodes_outcome k s panic lacks h = h

  locals_outcome :
      (k : String) (s : Service W V C) (r : Result (String × V))
      → FindOutcome (asks k s.world) s.locals r
      → GetOutcome k s (from_locals k r s).0 (from_locals k r s).1
  unfolding from_locals
  locals_outcome k s (ok (vid, v)) h = inl (h, refl)
  locals_outcome k s (err e) (same, h) =
      rw same
        (nodes_outcome k s (find_volume (asks k s.world) s.nodes) h (find_volume-Outcome _ s.nodes))
  locals_outcome k s panic h = h

  -- For a key that is not in the cache, whatever the order of the answers, a node turns to a local
  -- volume that has it and changes nothing, or, where none has, to a node that has it and notes
  -- that in the cache; and it answers "not found" exactly where neither a volume nor a node has it.
  pub get_volume-Outcome :
      (k : String) (s : Service W V C)
      → cache.get s.cache k ≡ none
      → GetOutcome k s (get_volume k s).0 (get_volume k s).1
  unfolding get_volume from_cache
  get_volume-Outcome k s e =
      rw (e, from_cache)
        (locals_outcome k s (find_volume (asks k s.world) s.locals)
          (find_volume-Outcome _ s.locals))

  -- Where a volume has the key, its ID and true; else what the cache remembers, and false.
  abbrev pub HasOutcome : String → Service W V C → Result (String × Bool) → Type 0
  HasOutcome k s (ok (vid, true)) = (v : V) × IsHolder (asks k s.world) s.locals vid v
  HasOutcome k s (ok (vid, false)) =
      HasNone (asks k s.world) s.locals × (vid ≡ (remembered (cache.get s.cache k)).0)
  HasOutcome k s (err e) = ⊥
  HasOutcome k s panic = ⊥

  memory_outcome :
      (k : String) (s : Service W V C) (o : Option String)
      → cache.get s.cache k ≡ o
      → HasNone (asks k s.world) s.locals
      → HasOutcome k s (ok (remembered o))
  memory_outcome k s none e lacks = (lacks, rw e refl)
  memory_outcome k s (some vid) e lacks = (lacks, rw e refl)

  answered :
      (k : String) (s : Service W V C) (r : Result (String × V))
      → FindOutcome (asks k s.world) s.locals r
      → HasOutcome k s (answer (remembered (cache.get s.cache k)) r)
  answered k s (ok (vid, v)) h = (v, h)
  answered k s (err e) (same, lacks) = rw same (memory_outcome k s (cache.get s.cache k) refl lacks)
  answered k s panic h = h

  -- `HasFile` answers true exactly where a local volume has the key, with the ID of one that has it,
  -- and else false with what the cache remembers; it returns no error, and changes nothing.
  pub has_file-Outcome :
      (k : String) (s : Service W V C) → HasOutcome k s (has_file k s).0 × ((has_file k s).1 ≡ s)
  unfolding has_file
  has_file-Outcome k s =
      (answered k s (find_volume (asks k s.world) s.locals) (find_volume-Outcome _ s.locals), refl)

-- ===== src/Node/EndToEnd.antt =====
-- A content that goes through a client, HTTP, the service of a node and its volume, and back.
use rebost.Prelude.{
  String, ◌≡◌, ◌≢◌, refl, ap, ◌∙◌, true, none, some, ℤ, pos, eqb_ℤ, if◌then◌else◌, eq_refl,
}
use rebost.Exec.{Result, ok}
use rebost.Platform.{Platform, Time, Bytes, IsBolt, IsAfero}
use rebost.BoltDb.Uow.{no_errors}
use rebost.File.{join, path}
use rebost.Config.{Config}
use rebost.Volume.Defs.{Volume}
use rebost.Volume.Create.{hashed, written, create_file}
use rebost.Volume.Reads.{get_file, has_file}
use rebost.Volume.Invariant.{IsIndexed}
use rebost.Volume.ReadBack.{IsCopy, written-IsCopy, create_then_get}
use rebost.Volume.RoundTrip.{create_then_has}
use rebost.Storing.{Cache}
use rebost.Storing
use rebost.Http.{Kit, Texts}
use rebost.Http.Laws.{IsKit, IsRouted, IsCarried, IsTyped}
use rebost.Client.{Client}
use rebost.Client.Wire.{Endpoints}
use rebost.Client.Methods.{Session}
use rebost.Client.Methods
use rebost.Remote.{IsTold, IsTurn}
use rebost.Remote.Files.{create_file-remote}
use rebost.Remote.Reads.{received, get_file-remote}
use rebost.Node.{Readings, volumes, alone, serving}

module _ ⦃p : Platform⦄ {C : Type 0} ⦃cache : Cache C⦄ (x : Readings) (cfg_replica : ℤ)
    (c : C) where
  -- The number of replicas that the volume is given.
  abbrev pub replicas_of : ℤ → ℤ
  replicas_of rep = if eqb_ℤ rep (pos 0) then cfg_replica else rep

  service-create_file :
      (key : String) (content : Bytes) (rep ttl : ℤ) (ca : Time) (v : Volume)
      → let r = create_file x.creating key content (replicas_of rep) ttl ca v in
        Storing.create_file ⦃ops = volumes x⦄ 0 key content rep ttl ca (alone x cfg_replica c v)
        ≡ (r.0, alone x cfg_replica c r.1)
  unfolding Storing.create_file Storing.get_local_volume
  service-create_file key content rep ttl ca v = refl

  service-get_file :
      (key vid : String) (v : Volume)
      → cache.get c key ≡ none
      → (has_file x.asking key v).0 ≡ ok (vid, true)
      → let r = get_file x.getting key v in
        Storing.get_file ⦃ops = volumes x⦄ key (alone x cfg_replica c v)
        ≡ (r.0, alone x cfg_replica c r.1)
  unfolding Storing.get_file Storing.get_volume Storing.from_cache Storing.from_locals
      Storing.find_volume
  service-get_file key vid v uncached has = rw (uncached, Storing.from_cache) (rw has refl)

IsTold-known : {A : Type 0} (r : Result A) (a : A) → r ≡ ok a → IsTold r
IsTold-known r a e = record { has_text = λ x h. absurd (cc (e, h)); calm = λ h. cc (e, h) }

module _ ⦃p : Platform⦄ {C : Type 0} ⦃cache : Cache C⦄ (a : IsAfero) (b : IsBolt) (x : Readings)
    (cfg : Config) (cfg_replica : ℤ) (c : C) (kit : Kit (Storing.Service Volume (Unit {0}) C))
    (ik : IsKit kit) (t : Texts) (typed : IsTyped t)
    (c1 c2 c3 : Client (Endpoints (Storing.Service Volume (Unit {0}) C)))
    (first : IsTurn kit t (serving x cfg) c1 c2) (second : IsTurn kit t (serving x cfg) c2 c3) where
  -- Where a client stores a content on a node with one volume, with no error, what it reads back is what
  -- `io.Copy` has put in the file there: the content where the copy has come to its end, and a prefix
  -- of it, with no error from either call, where the body or the disk has failed before; of the empty
  -- one the client panics. The key stands for nothing before, is not in the cache, and the router reads it back; the
  -- volume's indexes agree, `CreateFile` of the volume returns no error, the temporary name is not the place of
  -- the file, and the transactions that look the key up return no error; the client reaches the node in
  -- both turns; the texts of the numbers and times are read back, and no content is taken for JSON.
  pub client_create_then_get :
      (key : String) (content : Bytes) (rep ttl : ℤ) (ca : Time) (v : Volume)
      → IsIndexed v
      → p.get v.idxkeys key ≡ none
      → join v.temp_dir x.creating.file_uuid ≢ path v.file_dir (p.sha1 (hashed x.creating content))
      → (create_file x.creating key content (replicas_of x cfg_replica c rep) ttl ca v).0 ≡ ok tt
      → x.asking.outcome ≡ no_errors
      → x.getting.outcome ≡ no_errors
      → cache.get c key ≡ none
      → IsRouted kit key
      → t.atoi (t.itoa rep) ≡ some rep
      → IsCarried t ttl ca
      → let stored =
          Methods.create_file key content rep ttl ca
            (record { client = c1; world = alone x cfg_replica c v }) in
        (stored.0 ≡ ok tt)
        × ((Methods.get_file key stored.1).0 ≡ received (ok (written x.creating content)))
        × IsCopy x.creating content (written x.creating content)
  client_create_then_get key content rep ttl ca v indexed absent apart done asks gets uncached
        routed number carried =
      let rep' = replicas_of x cfg_replica c rep in
      let r = create_file x.creating key content rep' ttl ca v in
      let n = serving x cfg in
      let created = service-create_file x cfg_replica c key content rep ttl ca v in
      let sess : Session (Storing.Service Volume (Unit {0}) C) = record {
        client = c1;
        world = alone x cfg_replica c v;
      } in
      let there : Session (Storing.Service Volume (Unit {0}) C) = record {
        client = c2;
        world = alone x cfg_replica c r.1;
      } in
      let sent : Methods.create_file key content rep ttl ca sess ≡ (r.0, there) =
        create_file-remote kit ik t n sess c2 first key content rep ttl ca routed number carried
          (IsTold-known _ tt (ap (λ q. q.0) created ∙ done))
        ∙ ap (λ q. (q.0, record { client = c2; world = q.1 })) created in
      let has : (has_file x.asking key r.1).0 ≡ ok (v.id, true) =
        create_then_has b x.creating key content rep' ttl ca v indexed done x.asking key asks
        ∙ rw (eq_refl key) refl in
      let read : (Storing.get_file ⦃ops = volumes x⦄ key (alone x cfg_replica c r.1)).0
          ≡ ok (written x.creating content) =
        ap (λ q. q.0) (service-get_file x cfg_replica c key v.id r.1 uncached has)
        ∙ (create_then_get a b x.creating key content rep' ttl ca v indexed absent apart done
            x.getting gets).0 in
      let got : (Methods.get_file key there).0 ≡ received (ok (written x.creating content)) =
        ap (λ q. q.0)
          (get_file-remote kit ik t n there c3 second key routed typed
            (IsTold-known _ (written x.creating content) read))
        ∙ ap received read in
      (
        ap (λ q. q.0) sent ∙ done,
        ap (λ q. (Methods.get_file key q.1).0) sent ∙ got,
        written-IsCopy x.creating content,
      )

-- ===== src/Client/Methods.antt =====
-- client/client.go: the methods of a client, each a request to the host whose turn it is.
use rebost.Prelude.{String, ◌==◌, Bool, List, ℤ, if◌then◌else◌}
use rebost.Exec.{Exec, pure, raise, ◌>>=◌}
use rebost.Platform.{Time, Bytes}
use rebost.Config.{Config}
use rebost.Model.{to_config}
use rebost.Client.{Client, get_client}
use rebost.Client.Wire.{Endpoints, Reply}

-- A client beside the world in which its hosts are.
pub record Session (W : Type 0) : Type 0 where
  pub client : Client (Endpoints W)
  pub world : W

module _ {W : Type 0} where
  abbrev pub on_client : {A : Type 0} → Exec (Client (Endpoints W)) A → Exec (Session W) A
  on_client m s = let (r, c) = m s.client in (r, record s { client = c })

  abbrev pub at_host : {A : Type 0} → Exec W A → Exec (Session W) A
  at_host m s = let (r, w) = m s.world in (r, record s { world = w })

  -- `if resp.Err != "" { return errors.New(resp.Err) }`
  abbrev pub checked : {A : Type 0} → Reply A → Exec (Session W) A
  checked x = if x.error == "" then pure x.value else raise x.error

  abbrev pub call : {A : Type 0} → (Endpoints W → Exec W (Reply A)) → Exec (Session W) A
  call endpoint = do c ← on_client get_client; x ← at_host (endpoint c); checked x

  unfoldable pub create_file : String → Bytes → ℤ → ℤ → Time → Exec (Session W) (Unit {0})
  unfolding get_client
  create_file key content rep ttl ca = call (λ c.
      c.create_file
        (record { key = key; iorc = content; replica = rep; ttl = ttl; created_at = ca }))

  unfoldable pub create_replica : String → Bytes → ℤ → Time → Exec (Session W) String
  unfolding get_client
  create_replica key content ttl ca =
      call
        (λ c. c.create_replica (record { key = key; iorc = content; ttl = ttl; created_at = ca }))

  unfoldable pub update_file_replica : String → List String → ℤ → Exec (Session W) (Unit {0})
  unfolding get_client
  update_file_replica key vids replica = call (λ c.
      c.update_file_replica (record {
        key = key;
        update_file_replica = record { volume_ids = vids; replica = replica };
      }))

  unfoldable pub get_file : String → Exec (Session W) Bytes
  unfolding get_client
  get_file key = call (λ c. c.get_file (record { key = key }))

  unfoldable pub delete_file : String → Exec (Session W) (Unit {0})
  unfolding get_client
  delete_file key = call (λ c. c.delete_file (record { key = key }))

  unfoldable pub has_file : String → Exec (Session W) (String × Bool)
  unfolding get_client
  has_file key = do x ← call (λ c. c.has_file (record { key = key })); pure (x.volume_id, x.has)

  unfoldable pub config : Exec (Session W) Config
  unfolding get_client to_config
  config = do m ← call (λ c. c.get_config tt); pure (to_config m)

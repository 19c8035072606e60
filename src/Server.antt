-- ===== src/Server.antt =====
-- storing/endpoint.go and storing/transport.go: the service of a node over HTTP. Here are its
-- interface, and the requests and responses; Wire decodes and encodes them, and Handler puts the
-- endpoints behind their routes.
pub mod Wire
pub mod Handler
use rebost.Prelude.{String, Bool, List, ℤ}
use rebost.Exec.{Error, Result, ok, err, panic, Exec}
use rebost.Platform.{Time, Bytes}
use rebost.Config.{Config}

-- `Service`
pub record Service (W : Type 0) : Type 0 where
  pub create_file : String → Bytes → ℤ → ℤ → Time → Exec W (Unit {0})
  pub get_file : String → Exec W Bytes
  pub delete_file : String → Exec W (Unit {0})
  pub has_file : String → Exec W (String × Bool)
  pub update_file_replica : String → List String → ℤ → Exec W (Unit {0})
  pub config : Exec W Config
  pub create_replica : String → Bytes → ℤ → Time → Exec W String

pub record CreateFileRequest : Type 0 where
  pub key : String
  pub body : Bytes
  pub replica : ℤ
  pub ttl : ℤ
  pub created_at : Time

pub record CreateReplicaRequest : Type 0 where
  pub key : String
  pub body : Bytes
  pub ttl : ℤ
  pub created_at : Time

pub record UpdateFileReplicaRequest : Type 0 where
  pub key : String
  pub replica : ℤ
  pub volume_ids : List String

-- The requests that have only a key.
pub record KeyRequest : Type 0 where
  pub key : String

-- A response has its error, or what the service returned.
pub data Answer (A : Type 0) : Type 0 where
  answer : A → Answer A
  failed : Error → Answer A

-- The error goes into the response, and the endpoint returns none.
abbrev pub caught : {A : Type 0} → Result A → Result (Answer A)
caught (ok a) = ok (answer a)
caught (err e) = ok (failed e)
caught panic = panic

abbrev pub catch : {W A : Type 0} → Exec W A → Exec W (Answer A)
catch m w = (caught (m w).0, (m w).1)

-- ===== src/Replica.antt =====
-- replica/replica.go: a file that waits to be copied to other volumes.
use rebost.Prelude.{String, List, ℤ}
use rebost.Platform.{Time}

pub record Replica : Type 0 where
  pub id : String
  pub original_count : ℤ
  pub count : ℤ
  pub key : String
  pub signature : String
  pub volume_id : String
  pub volume_ids : List String
  -- The key of the entry in the bucket; empty until the entry is created.
  pub volume_replica_id : String
  pub ttl : ℤ
  pub created_at : Time

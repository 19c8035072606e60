-- ===== src/Tests/Replication.antt =====
-- A node with one volume, and another node that takes copies.
use rebost.Prelude.{
  int_sub, String, ◌≡◌, ◌≢◌, refl, Bool, true, false, Option, none, some, List, [], ◌∷◌, pos,
}
use rebost.Exec.{panic, Result, ok, err, not_found}
use rebost.Exec.Keeps.{Keeps}
use rebost.Platform.{Bytes, zero_time}
use rebost.Assoc.{Assoc, look}
use rebost.Replica.{Replica}
use rebost.Storing.Replication.{
  Members, replication_round, recovery_round, synchronize_removed, replicate_next, try_nodes,
  try_node, send_copy, record_copy, notify_all, notify,
}
use rebost.Storing.Replication.Guarded.{IsGuarded, rounds-Keeps}
use rebost.Storing.Replication.Progress.{IsProgress, replicate_next-true}
use rebost.Storing.Replication.Calm.{IsCalm}
use rebost.Storing.Replication.Rounds.{after_calls, after_bodies, answers, any_of, rounds-Complete}

record World : Type 0 where
  pub queue : List Replica
  pub own : Assoc Bytes
  pub remote : Assoc Bytes
  pub notes : List String

abbrev head_of : List Replica → Result Replica
head_of [] = err not_found
head_of (rp ∷ rps) = ok rp

abbrev content_of : Option Bytes → Result Bytes
content_of none = err not_found
content_of (some c) = ok c

abbrev held : Option Bytes → Bool
held none = false
held (some c) = true

abbrev members : Members World String String
members = record {
  local_volumes = "v0" ∷ [];
  id = λ v. v;
  next_replica = λ v w. (head_of w.queue, w);
  get_file = λ v key w. (content_of (look w.own key), w);
  update_replica = λ v rp vid w. (ok tt, record w { queue = []; notes = vid ∷ w.notes });
  left_in_replica = λ v rp vid w. (int_sub rp.count (pos 1), "2");
  synchronize_replicas = λ v vid w. (err not_found, w);
  nodes_without_volume_ids = λ vids w. "n1" ∷ [];
  get_node_with_volume_by_id = λ vid w. ok "n1";
  removed_volume_ids = λ w. (ok ("v7" ∷ []), w);
  has_file = λ n key w. (ok ("v1", held (look w.remote key)), w);
  create_replica = λ n key c ttl ca w. (ok "v1", record w { remote = (key, c) ∷ w.remote });
  update_file_replica = λ n key vids count w. (ok tt, w);
}

-- No key is there twice.
abbrev IsUnique : Assoc Bytes → Type 0
IsUnique [] = Unit {0}
IsUnique ((k, c) ∷ m) = (look m k ≡ none) × IsUnique m

not_held :
    (o : Option Bytes) (vid known : String)
    → ◌≡◌ {A = Result (String × Bool)} (ok (vid, held o)) (ok (known, false))
    → o ≡ none
not_held none vid known e = refl
not_held (some c) vid known e = absurd (cc e)

members-IsGuarded : IsGuarded members (λ w. IsUnique w.remote) (λ n key w. look w.remote key ≡ none)
members-IsGuarded = record {
  next = λ v. record { at = λ w h. h };
  updates = λ v rp vid. record { at = λ w h. h };
  synchronizes = λ v vid. record { at = λ w h. h };
  removed = record { at = λ w h. h };
  tells = λ n key vids count. record { at = λ w h. h };
  asks = λ n key. record { at = λ w h. h };
  asked = λ n key vid w h e. not_held (look w.remote key) "v1" vid e;
  reads = λ v key. record { at = λ w h. h };
  read = λ v n key w h a. a;
  copies = λ n key c ttl ca w h a. (a, h);
}

abbrev pending : Replica
pending = record {
  id = "r0";
  original_count = pos 2;
  count = pos 1;
  key = "cat";
  signature = "a1b2";
  volume_id = "v0";
  volume_ids = "v0" ∷ [];
  volume_replica_id = "1";
  ttl = pos 0;
  created_at = zero_time;
}

abbrev waiting : World
waiting = record {
  queue = pending ∷ [];
  own = ("cat", 1 ∷ 2 ∷ []) ∷ [];
  remote = ("dog", 3 ∷ []) ∷ [];
  notes = [];
}

rounds-Keeps_example :
    Keeps (λ (w : World). IsUnique w.remote) (replication_round members)
    × Keeps (λ (w : World). IsUnique w.remote) (recovery_round members)
rounds-Keeps_example =
    rounds-Keeps members (λ w. IsUnique w.remote) (λ n key w. look w.remote key ≡ none)
      members-IsGuarded

copied : (replicate_next members "v0" waiting).0 ≡ ok true
unfolding replicate_next try_nodes try_node send_copy record_copy notify_all notify
copied = refl

replicate_next-true_example :
    IsProgress members "v0" waiting (replicate_next members "v0" waiting).1
replicate_next-true_example = replicate_next-true members "v0" waiting copied

members-IsCalm : IsCalm members
members-IsCalm = record {
  next_replica = λ v w. given w.queue;
  get_file = λ v key w. found (look w.own key);
  update_replica = λ v rp vid w e. cc e;
  synchronize_replicas = λ v vid w e. cc e;
  get_node = λ vid w e. cc e;
  has_file = λ n key w e. cc e;
  create_replica = λ n key c ttl ca w e. cc e;
  update_file_replica = λ n key vids count w e. cc e;
}
  where
    given : (rps : List Replica) → head_of rps ≢ panic
    given [] e = cc e
    given (rp ∷ rps) e = cc e

    found : (o : Option Bytes) → content_of o ≢ panic
    found none e = cc e
    found (some c) e = cc e

rounds-Complete_example :
    (replication_round members waiting ≡ (
      ok (any_of members (answers members ("v0" ∷ []) waiting)),
      after_bodies members ("v0" ∷ []) waiting,
    ))
    × (synchronize_removed members ("v7" ∷ "v8" ∷ []) waiting
        ≡ (ok tt, after_calls members (("v7", "v0") ∷ ("v8", "v0") ∷ []) waiting))
rounds-Complete_example = rounds-Complete members members-IsCalm waiting ("v7" ∷ "v8" ∷ [])

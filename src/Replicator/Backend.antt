-- ===== src/Replicator/Backend.antt =====
-- types.Backend (pkg/types/types.go): the calls that the controller makes on a replica. They go
-- over the network to another process, so what they do is a parameter. Each takes the state of the
-- backend object and gives the new one with the results.
use longhorn_engine.Prelude.{ℕ, String, Bool, Option, List}
use longhorn_engine.Prelude.Int.{ℤ}
use longhorn_engine.Types.{ReplicaError}

-- A Go pair `(value, err)`.
pub data Result (A : Type 0) : Type 0 where
  ok : A → Result A
  fail : ReplicaError → Result A

-- The arguments of `Snapshot`; `labels` is opaque here.
pub record SnapshotRequest : Type 0 where
  pub name : String
  pub user_created : Bool
  pub created : String
  pub labels : List (String × String)

pub record Backend (S : Type 0) : Type 0 where
  -- the buffer after the call, the count and the error
  pub read_at : List ℕ → ℕ → S → S × List ℕ × ℕ × Option ReplicaError
  pub write_at : List ℕ → ℕ → S → S × ℕ × Option ReplicaError
  pub unmap_at : ℕ → ℕ → S → S × ℕ × Option ReplicaError
  pub snapshot : SnapshotRequest → S → S × Option ReplicaError
  pub expand : ℕ → S → S × Option ReplicaError
  pub close : S → S × Option ReplicaError
  pub stop_monitoring : S → S
  pub get_revision_counter : S → S × Result ℤ
  pub set_revision_counter : ℤ → S → S × Option ReplicaError
  pub get_snapshot_usage : S → S × Result (ℕ × ℕ)
  pub get_head_file_size : S → S × Result ℕ
  pub get_unmap_mark_removed : S → S × Result Bool
  pub set_unmap_mark_removed : Bool → S → S × Option ReplicaError
  pub set_snapshot_max_count : ℕ → S → S × Option ReplicaError
  pub set_snapshot_max_size : ℕ → S → S × Option ReplicaError
  pub is_revision_counter_disabled : S → S × Result Bool

-- The objects at their pointers.
abbrev pub Heap : Type 0 → Type 0
Heap S = ℕ → S

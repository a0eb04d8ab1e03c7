-- ===== src/Types.antt =====
-- pkg/types: replica modes (types.go) and errors (error.go).
--
-- A Go `error` is an `Option`: `none` is nil. The dynamic types that the code tells apart by a type
-- assertion are constructors: `*types.Error` is `coded`, every other error of one replica `plain`;
-- the errors of the fan-out writers and of the replicator stand a level above.
pub mod Errors
use longhorn_engine.Prelude.{String, Option, List}

-- `Mode`: WO, RW and ERR.
pub data Mode : Type 0 where
  write_only read_write errored : Mode

pub Mode-discrete : Discrete Mode
Mode-discrete = hlevel

-- `ErrorCode`
pub data ErrorCode : Type 0 where
  result_unknown failed_without_rollback rollback_succeeded rollback_failed : ErrorCode

-- `Error` of error.go.
pub record CodedError : Type 0 where
  pub code : ErrorCode
  pub message : String
  pub rollback_message : String

-- An error that one replica returns.
pub data ReplicaError : Type 0 where
  coded : CodedError → ReplicaError
  plain : String → ReplicaError

-- The errors of a call that goes to several replicas: `*MultiWriterError` and `*MultiUnmapperError`
-- hold one entry for each writer or unmapper.
pub data CallError : Type 0 where
  one : ReplicaError → CallError
  multi_writer : List (Option ReplicaError) → CallError
  multi_unmapper : List (Option ReplicaError) → CallError

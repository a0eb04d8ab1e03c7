-- ===== src/Replicator/MultiWriter.antt =====
-- pkg/controller/multi_writer_at.go: one write sent to all writers at once.
--
-- Each goroutine makes one call and stores its error at its own index, so a run is given by the
-- order in which the calls take effect: `order`, a list of indices.
use longhorn_engine.Prelude.{
  ℕ, Bool, true, false, Option, none, some, List, [], ◌∷◌, length, get_elem?, set, replicate,
  if◌then◌else◌, ◌==◌,
}
use longhorn_engine.Types.{ReplicaError, CallError, multi_writer}
use longhorn_engine.Replicator.Backend.{Backend, Heap}

abbrev pub update {ℓ} : {A : Type ℓ} → (ℕ → A) → ℕ → A → ℕ → A
update f p v q = if p == q then v else f q

-- `if err != nil { errs[index] = err }`
unfoldable pub record_error :
    ℕ → Option ReplicaError → List (Option ReplicaError) → List (Option ReplicaError)
record_error i none errs = errs
record_error i (some x) errs = set errs i (some x)

-- What the goroutines share: the backends and the slice `errs`.
pub record Flight (S : Type 0) : Type 0 where
  pub heap : Heap S
  pub errs : List (Option ReplicaError)

module _ {S : Type 0} (b : Backend S) where
  -- The goroutine of index `i`. There is none past the end of `writers`.
  unfoldable pub write_one : List ℕ → List ℕ → ℕ → ℕ → Flight S → Flight S
  write_one writers buf off i f = elim (get_elem? writers i) [
    | none ↦ f
    | some p ↦
        let (s, n, e) = b.write_at buf off (f.heap p) in
        record { heap = update f.heap p s; errs = record_error i e f.errs }
  ]

  unfoldable pub write_all : List ℕ → List ℕ → ℕ → List ℕ → Flight S → Flight S
  unfolding write_one
  write_all writers buf off [] f = f
  write_all writers buf off (i ∷ order) f =
      write_all writers buf off order (write_one writers buf off i f)

-- The last loop: the count is the buffer's length if some writer had no error.
unfoldable pub written : ℕ → List (Option ReplicaError) → ℕ
written len [] = 0
written len (none ∷ es) = len
written len (some e ∷ es) = written len es

abbrev pub any_error : List (Option ReplicaError) → Bool
any_error [] = false
any_error (none ∷ es) = any_error es
any_error (some e ∷ es) = true

module _ {S : Type 0} (b : Backend S) where
  -- `WriteAt`
  unfoldable pub multi_write : List ℕ → List ℕ → ℕ → List ℕ → Heap S → Heap S × ℕ × Option CallError
  unfolding write_all written
  multi_write writers buf off order h =
      let f =
        write_all b writers buf off order
          (record { heap = h; errs = replicate (length writers) none }) in
      (
        f.heap,
        written (length buf) f.errs,
        if any_error f.errs then some (multi_writer f.errs) else none,
      )

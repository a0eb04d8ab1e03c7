-- ===== src/Replicator/MultiUnmapper.antt =====
-- pkg/controller/multi_unmapper_at.go: one unmap sent to all unmappers at once.
-- As in `MultiWriter`, a run is given by the order in which the goroutines take effect; here they
-- also share `unmappedSize`, under the lock.
use longhorn_engine.Prelude.{
  ℕ, Option, none, some, List, [], ◌∷◌, length, get_elem?, replicate, if◌then◌else◌, ◌==◌,
}
use longhorn_engine.Types.{ReplicaError, CallError, multi_unmapper}
use longhorn_engine.Replicator.Backend.{Backend, Heap}
use longhorn_engine.Replicator.MultiWriter.{update, record_error, any_error}

pub record Flight (S : Type 0) : Type 0 where
  pub heap : Heap S
  pub errs : List (Option ReplicaError)
  pub unmapped_size : ℕ

module _ {S : Type 0} (b : Backend S) where
  -- The goroutine of index `i`. A size that differs from the first one is only logged.
  unfoldable pub unmap_one : List ℕ → ℕ → ℕ → ℕ → Flight S → Flight S
  unmap_one unmappers len off i f = elim (get_elem? unmappers i) [
    | none ↦ f
    | some p ↦
        let (s, n, e) = b.unmap_at len off (f.heap p) in
        record {
          heap = update f.heap p s;
          errs = record_error i e f.errs;
          unmapped_size = if f.unmapped_size == 0 then n else f.unmapped_size;
        }
  ]

  unfoldable pub unmap_all : List ℕ → ℕ → ℕ → List ℕ → Flight S → Flight S
  unfolding unmap_one
  unmap_all unmappers len off [] f = f
  unmap_all unmappers len off (i ∷ order) f =
      unmap_all unmappers len off order (unmap_one unmappers len off i f)

  -- `UnmapAt`
  unfoldable pub multi_unmap : List ℕ → ℕ → ℕ → List ℕ → Heap S → Heap S × ℕ × Option CallError
  unfolding unmap_all
  multi_unmap unmappers len off order h =
      let f =
        unmap_all unmappers len off order
          (record { heap = h; errs = replicate (length unmappers) none; unmapped_size = 0 }) in
      (f.heap, f.unmapped_size, if any_error f.errs then some (multi_unmapper f.errs) else none)

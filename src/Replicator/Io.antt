-- ===== src/Replicator/Io.antt =====
-- pkg/controller/replicator.go: `ReadAt`, `WriteAt` and `UnmapAt`.
use longhorn_engine.Prelude.{
  ℕ, zero, suc, ◌+◌, ◌%◌, String, Option, none, some, List, [], ◌∷◌, length, get_elem?, get_or,
  if◌then◌else◌, not,
}
use longhorn_engine.Prelude.Dict
use longhorn_engine.Prelude.Dict.{Dict}
use longhorn_engine.Types.{ReplicaError, CallError, one, multi_writer}
use longhorn_engine.Replicator.{Replicator, is_empty}
use longhorn_engine.Replicator.Backend.{Backend, Heap}
use longhorn_engine.Replicator.MultiWriter.{update, multi_write}
use longhorn_engine.Replicator.MultiUnmapper.{multi_unmap}

-- The errors that the replicator returns: `ErrNoBackend` and `*BackendError`.
pub data IoError : Type 0 where
  no_backend : IoError
  backend_error : Dict CallError → IoError

-- All the pointers, or a panic at a nil one.
unfoldable pub deref : List (Option ℕ) → Option (List ℕ)
deref [] = some []
deref (none ∷ ps) = none
deref (some p ∷ ps) = elim (deref ps) [ none ↦ none | some qs ↦ some (p ∷ qs) ]

-- The errors of a slice under the addresses of an index map. A missing key of the map reads "".
unfoldable pub collect : List String → List (Option ReplicaError) → Dict CallError → Dict CallError
collect index [] m = m
collect [] (none ∷ es) m = collect [] es m
collect [] (some e ∷ es) m = collect [] es (Dict.put "" (one e) m)
collect (a ∷ index) (none ∷ es) m = collect index es m
collect (a ∷ index) (some e ∷ es) m = collect index es (Dict.put a (one e) m)

-- What `WriteAt` and `UnmapAt` make of an error: both test for a `*MultiWriterError`.
unfoldable pub split_error : List String → CallError → Dict CallError
unfolding collect
split_error index (multi_writer errs) = collect index errs []
split_error index e = (get_or index 0 "", e) ∷ []

-- The result of `ReadAt`: the buffer and the count, with the error.
pub record ReadResult (S : Type 0) : Type 0 where
  pub heap : Heap S
  pub buf : List ℕ
  pub n : ℕ
  pub errors : Dict CallError

module _ {S : Type 0} (b : Backend S) where
  -- The loop of `ReadAt`, with the rounds that are left. `none` is a panic.
  unfoldable pub read_loop :
      List String → List (Option ℕ) → ℕ → ℕ → ℕ → ReadResult S → Option (ReadResult S)
  read_loop index_map readers off zero index r = some r
  read_loop index_map readers off (suc rounds) index r = elim (get_elem? readers index) [
    | none ↦ none
    | some none ↦ none
    | some (some p) ↦
        let (s, buf, n, e) = b.read_at r.buf off (r.heap p) in
        let r' = record r { heap = update r.heap p s; buf = buf; n = n } in
        elim e [
          | none ↦ some r'
          | some x ↦
              read_loop index_map readers off rounds ((index + 1) % length readers)
                (record r' { errors = Dict.put (get_or index_map index "") (one x) r'.errors })
        ]
  ]

  -- `ReadAt`: the new replicator, and the heap, the buffer, the count and the error.
  unfoldable pub read_at :
      List ℕ → ℕ → Replicator → Heap S → Option (Replicator × Heap S × List ℕ × ℕ × Option IoError)
  unfolding read_loop
  read_at buf off r h =
      if not r.backends_available
      then some (r, h, buf, 0, some no_backend)
      else if is_empty r.readers
      then none
      else let next = (r.next + 1) % length r.readers in
        elim (read_loop r.reader_index r.readers off (length r.readers) next
          (record { heap = h; buf = buf; n = 0; errors = [] })) [
            | none ↦ none
            | some t ↦ some (
              record r { next = next },
              t.heap,
              t.buf,
              t.n,
              if is_empty t.errors then none else some (backend_error t.errors),
            )
          ]

  -- `WriteAt`; `order` is the order in which the writers' goroutines take effect.
  unfoldable pub write_at :
      List ℕ → ℕ → List ℕ → Replicator → Heap S → Option (Heap S × ℕ × Option IoError)
  unfolding deref multi_write split_error
  write_at buf off order r h =
      if not r.backends_available then some (h, 0, some no_backend) else elim (deref r.writers) [
        | none ↦ none
        | some ws ↦
            let (h', n, e) = multi_write b ws buf off order h in
            some (
              h',
              n,
              elim e [ none ↦ none | some x ↦ some (backend_error (split_error r.writer_index x)) ],
            )
      ]

  -- `UnmapAt`
  unfoldable pub unmap_at :
      ℕ → ℕ → List ℕ → Replicator → Heap S → Option (Heap S × ℕ × Option IoError)
  unfolding deref multi_unmap split_error
  unmap_at len off order r h =
      if not r.backends_available then some (h, 0, some no_backend) else elim (deref r.unmappers) [
        | none ↦ none
        | some us ↦
            let (h', n, e) = multi_unmap b us len off order h in
            some (
              h',
              n,
              elim e [
                | none ↦ none
                | some x ↦ some (backend_error (split_error r.unmapper_index x))
              ],
            )
      ]

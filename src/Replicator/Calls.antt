-- ===== src/Replicator/Calls.antt =====
-- pkg/controller/replicator.go: the calls that go to every replica in turn or in parallel, beside
-- reads, writes and unmaps. `order` is the map's entries, in the order in which `range` meets them
-- or in which the goroutines take effect. `none` is a panic: a call on a nil backend.
use longhorn_engine.Prelude.{
  ℕ, ◌+◌, String, Bool, true, false, Option, none, some, [], ◌∷◌, length, ltb, if◌then◌else◌,
}
use longhorn_engine.Prelude.Int.{ℤ}
use longhorn_engine.Prelude.Dict
use longhorn_engine.Prelude.Dict.{Dict}
use longhorn_engine.Types.{
  ReplicaError, coded, plain, CallError, one, CodedError, ErrorCode, rollback_succeeded,
  result_unknown,
}
use longhorn_engine.Types.Errors.{Texts, new_error}
use longhorn_engine.Replicator.{BackendWrapper, Replicator, is_errored, is_empty, reset}
use longhorn_engine.Replicator.Backend.{Backend, Heap, Result, ok, fail, SnapshotRequest}
use longhorn_engine.Replicator.MultiWriter.{update}
use longhorn_engine.Replicator.Io.{IoError, backend_error}

-- Whether an error asks for more than a rollback that succeeded.
abbrev pub out_of_sync : ErrorCode → Bool
out_of_sync rollback_succeeded = false
out_of_sync _ = true

-- The counts of `Expand`: all the errors, those of replicas out of sync, and the replicas asked.
pub record Expansion (S : Type 0) : Type 0 where
  pub heap : Heap S
  pub errs : Dict CodedError
  pub out : Dict CodedError
  pub asked : ℕ

pub record Usage (S : Type 0) : Type 0 where
  pub heap : Heap S
  pub count : ℕ
  pub size : ℕ
  pub has_result : Bool

module _ {S : Type 0} (b : Backend S) where
  -- The goroutines of `Snapshot`.
  unfoldable pub snapshot_loop :
      SnapshotRequest
      → Dict BackendWrapper
      → Heap S
      → Dict CallError
      → Option (Heap S × Dict CallError)
  snapshot_loop q [] h errs = some (h, errs)
  snapshot_loop q ((address, w) ∷ order) h errs = elim (is_errored w.mode) [
    | true ↦ snapshot_loop q order h errs
    | false ↦ elim w.backend [
      | none ↦ none
      | some p ↦
          let (s, e) = b.snapshot q (h p) in
          snapshot_loop q order (update h p s)
            (elim e [ none ↦ errs | some x ↦ Dict.put address (one x) errs ])
    ]
  ]

  -- `Snapshot`
  unfoldable pub snapshot :
      SnapshotRequest → Dict BackendWrapper → Heap S → Option (Heap S × Option IoError)
  unfolding snapshot_loop
  snapshot q order h = elim (snapshot_loop q order h []) [
    | none ↦ none
    | some (h', errs) ↦ some (h', if is_empty errs then none else some (backend_error errs))
  ]

  -- The goroutines of `Expand`.
  unfoldable pub expand_loop : Texts → ℕ → Dict BackendWrapper → Expansion S → Option (Expansion S)
  expand_loop t size [] x = some x
  expand_loop t size ((address, w) ∷ order) x = elim (is_errored w.mode) [
    | true ↦ expand_loop t size order x
    | false ↦ elim w.backend [
      | none ↦ none
      | some p ↦
          let (s, err) = b.expand size (x.heap p) in
          let x' = record x { heap = update x.heap p s; asked = x.asked + 1 } in
          expand_loop t size order (elim err [
            | none ↦ x'
            | some e ↦
                let c : CodedError = elim e [
                  | coded c ↦ c
                  | plain m ↦ new_error result_unknown (t.text (plain m)) ""
                ] in
                record x' {
                  errs = Dict.put address c x'.errs;
                  out = if out_of_sync c.code then Dict.put address c x'.out else x'.out;
                }
          ])
    ]
  ]

  -- A map of errors with codes as a map of errors.
  unfoldable pub coded_errors : Dict CodedError → Dict CallError
  coded_errors [] = []
  coded_errors ((a, c) ∷ es) = (a, one (coded c)) ∷ coded_errors es

  -- The end of `Expand`: success, the errors to handle and the errors to record.
  unfoldable pub expand_result : Expansion S → Bool × Option IoError × Option IoError
  unfolding coded_errors
  expand_result x =
      if is_empty x.errs
      then (true, none, none)
      else let all = some (backend_error (coded_errors x.errs)) in
        if ltb (length x.errs) x.asked
        then (true, all, all)
        else if is_empty x.out
        then (false, none, all)
        else (false, some (backend_error (coded_errors x.out)), all)

  -- `Expand`
  unfoldable pub expand :
      Texts
      → ℕ
      → Dict BackendWrapper
      → Heap S
      → Option (Heap S × Bool × Option IoError × Option IoError)
  unfolding expand_loop expand_result
  expand t size order h =
      elim (expand_loop t size order (record { heap = h; errs = []; out = []; asked = 0 })) [
        | none ↦ none
        | some x ↦ let (success, bad, all) = expand_result x in some (x.heap, success, bad, all)
      ]

  -- The loop of `Close`, with `lastErr`.
  unfoldable pub close_loop :
      Dict BackendWrapper → Heap S → Option ReplicaError → Option (Heap S × Option ReplicaError)
  close_loop [] h last = some (h, last)
  close_loop ((address, w) ∷ order) h last = elim (is_errored w.mode) [
    | true ↦ close_loop order h last
    | false ↦ elim w.backend [
      | none ↦ none
      | some p ↦
          let (s, e) = b.close (b.stop_monitoring (h p)) in
          close_loop order (update h p s) (elim e [ none ↦ last | some x ↦ some x ])
    ]
  ]

  -- `Close`
  unfoldable pub close :
      Dict BackendWrapper → Replicator → Heap S → Option (Replicator × Heap S × Option ReplicaError)
  unfolding close_loop reset
  close order r h = elim (close_loop order h none) [
    | none ↦ none
    | some (h', last) ↦ some (reset true r, h', last)
  ]

  -- The loop of `GetSnapshotCountAndSizeUsage`.
  unfoldable pub usage_loop : Dict BackendWrapper → Usage S → Option (Usage S)
  usage_loop [] u = some u
  usage_loop ((address, w) ∷ order) u = elim (is_errored w.mode) [
    | true ↦ usage_loop order u
    | false ↦ elim w.backend [
      | none ↦ none
      | some p ↦
          let (s, e) = b.get_snapshot_usage (u.heap p) in
          let u' = record u { heap = update u.heap p s } in
          usage_loop order (elim e [
            | fail x ↦ u'
            | ok x ↦ record u' {
              count = if ltb u'.count x.0 then x.0 else u'.count;
              size = if ltb u'.size x.1 then x.1 else u'.size;
              has_result = true;
            }
          ])
    ]
  ]

  -- `GetSnapshotCountAndSizeUsage`
  unfoldable pub get_snapshot_usage :
      Dict BackendWrapper → Heap S → Option (Heap S × Result (ℕ × ℕ))
  unfolding usage_loop
  get_snapshot_usage order h =
      elim (usage_loop order (record { heap = h; count = 0; size = 0; has_result = false })) [
        | none ↦ none
        | some u ↦ some (
          u.heap,
          if u.has_result
              then ok (u.count, u.size)
              else fail (plain "cannot get an valid result for snapshot usage"),
        )
      ]

  -- The loop of `GetHeadFileSize`; the count of a usage is not used.
  unfoldable pub head_size_loop : Dict BackendWrapper → Usage S → Option (Usage S)
  head_size_loop [] u = some u
  head_size_loop ((address, w) ∷ order) u = elim (is_errored w.mode) [
    | true ↦ head_size_loop order u
    | false ↦ elim w.backend [
      | none ↦ none
      | some p ↦
          let (s, e) = b.get_head_file_size (u.heap p) in
          let u' = record u { heap = update u.heap p s } in
          head_size_loop order (elim e [
            | fail x ↦ u'
            | ok n ↦ record u' { size = if ltb u'.size n then n else u'.size; has_result = true }
          ])
    ]
  ]

  -- `GetHeadFileSize`
  unfoldable pub get_head_file_size : Dict BackendWrapper → Heap S → Option (Heap S × Result ℕ)
  unfolding head_size_loop
  get_head_file_size order h =
      elim (head_size_loop order (record { heap = h; count = 0; size = 0; has_result = false })) [
        | none ↦ none
        | some u ↦ some (
          u.heap,
          if u.has_result
              then ok u.size
              else fail (plain "cannot get valid result for head file size"),
        )
      ]

  -- The backend of an address, for the getters and setters that follow.
  unfoldable pub at_backend :
      {A : Type 0} → String → Replicator → Heap S → A → (S → S × A) → Option (Heap S × A)
  at_backend address r h missing call = elim (Dict.get address r.backends) [
    | none ↦ some (h, missing)
    | some w ↦ elim w.backend [
      | none ↦ none
      | some p ↦ let (s, a) = call (h p) in some (update h p s, a)
    ]
  ]

  abbrev pub cannot_find : ReplicaError
  cannot_find = plain "cannot find backend"

  -- `SetRevisionCounter`
  unfoldable pub set_revision_counter :
      String → ℤ → Replicator → Heap S → Option (Heap S × Option ReplicaError)
  unfolding at_backend
  set_revision_counter address n r h =
      at_backend address r h (some cannot_find) (b.set_revision_counter n)

  -- `GetRevisionCounter`, without the number beside an error.
  unfoldable pub get_revision_counter : String → Replicator → Heap S → Option (Heap S × Result ℤ)
  unfolding at_backend
  get_revision_counter address r h =
      at_backend address r h (fail cannot_find) b.get_revision_counter

  -- `SetUnmapMarkSnapChainRemoved` and `GetUnmapMarkSnapChainRemoved`
  unfoldable pub set_unmap_mark_removed :
      String → Bool → Replicator → Heap S → Option (Heap S × Option ReplicaError)
  unfolding at_backend
  set_unmap_mark_removed address enabled r h =
      at_backend address r h (some cannot_find) (b.set_unmap_mark_removed enabled)

  unfoldable pub get_unmap_mark_removed :
      String → Replicator → Heap S → Option (Heap S × Result Bool)
  unfolding at_backend
  get_unmap_mark_removed address r h =
      at_backend address r h (fail cannot_find) b.get_unmap_mark_removed

  -- `SetSnapshotMaxCount` and `SetSnapshotMaxSize`
  unfoldable pub set_snapshot_max_count :
      String → ℕ → Replicator → Heap S → Option (Heap S × Option ReplicaError)
  unfolding at_backend
  set_snapshot_max_count address n r h =
      at_backend address r h (some cannot_find) (b.set_snapshot_max_count n)

  unfoldable pub set_snapshot_max_size :
      String → ℕ → Replicator → Heap S → Option (Heap S × Option ReplicaError)
  unfolding at_backend
  set_snapshot_max_size address n r h =
      at_backend address r h (some cannot_find) (b.set_snapshot_max_size n)

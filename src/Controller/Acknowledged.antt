-- ===== src/Controller/Acknowledged.antt =====
-- pkg/controller/control.go: `WriteAt` in the normal mode, with the handling of its error.
use longhorn_engine.Prelude.{
  ℕ, String, Bool, true, false, Option, none, some, List, [], ◌∷◌, ◌≡◌, refl, sym, ◌∙◌, arith,
  length, get_elem?,
}
use longhorn_engine.Prelude.Dict
use longhorn_engine.Prelude.Dict.{Dict}
use longhorn_engine.Types.{Mode, read_write, CallError, ReplicaError, one}
use longhorn_engine.Replicator.{BackendWrapper, is_errored}
use longhorn_engine.Replicator.Backend.{Backend, Heap}
use longhorn_engine.Replicator.Index.{Visits}
use longhorn_engine.Replicator.Fanout.{IsDistinct}
use longhorn_engine.Replicator.Io
use longhorn_engine.Replicator.Io.{IoError, no_backend, backend_error, deref}
use longhorn_engine.Replicator.Attribution.{Schedules, error_at, as_entry, write_at-names_failures}
use longhorn_engine.Controller.{World, ControlError, from_backend, has_wo_replica}
use longhorn_engine.Controller.Io.{write_in_normal_mode, write_at, beyond, lift_error}
use longhorn_engine.Controller.Errors.{handle_error}
use longhorn_engine.Controller.Modes.{modes, IsSynced}
use longhorn_engine.Controller.Handled.{failed, mode_after, handle_error-marks}

get-failed :
    (exists : CallError → Bool) (a : String) (es : Dict CallError) (e : CallError)
    → Dict.get a es ≡ some e
    → exists e ≡ false
    → failed exists a es ≡ true
unfolding Dict.get
get-failed exists a [] e h k = cc
get-failed exists a ((j, x) ∷ es) e h k = ground (arith, get-failed exists a es e)

-- An error of the replica's own call leaves it ERR.
not_errored-clean :
    (exists : CallError → Bool) (a : String) (es : Dict CallError) (o : Option Mode) (m : Mode)
    (r : Option ReplicaError)
    → Dict.get a es ≡ as_entry r
    → ((x : ReplicaError) → r ≡ some x → exists (one x) ≡ false)
    → mode_after exists a es o ≡ some m
    → is_errored m ≡ false
    → r ≡ none
not_errored-clean exists a es o m none h k l n = refl
not_errored-clean exists a es none m (some x) h k l n = cc
not_errored-clean exists a es (some m') m (some x) h k l n =
    ground (arith, get-failed exists a es (one x) h (k x refl))

as_entry-none : (r : Option ReplicaError) → none ≡ as_entry r → r ≡ none
as_entry-none none h = refl
as_entry-none (some x) h = cc

module _ (iterate : Dict BackendWrapper → Dict BackendWrapper) (visits : Visits iterate)
    (exists : CallError → Bool) {S : Type 0} (b : Backend S) (buf : List ℕ) (off : ℕ)
    (order : List ℕ) where
  -- The run of a write, the state after it, and what its answer says of the replicas.
  pub record Answered (ws : List ℕ) (w : World S) : Type 0 where
    pub after : World S
    pub count : ℕ
    pub error : Option ControlError
    pub runs : write_at b iterate exists buf off order w ≡ some (after, count, error)
    pub synced : IsSynced after.control
    pub clean :
        (a : String) (i p : ℕ) (m : Mode)
        → get_elem? w.control.backend.writer_index i ≡ some a
        → get_elem? ws i ≡ some p
        → Dict.get a (modes after.control.replicas) ≡ some m
        → is_errored m ≡ false
        → (b.write_at buf off (w.heap p)).2 ≡ none
    pub kept :
        error ≡ none → (a : String) × (Dict.get a (modes after.control.replicas) ≡ some read_write)

  still_rw :
      (w : World S)
      → IsSynced w.control
      → w.control.backend.backends_available ≡ true
      → (a : String) × (Dict.get a (modes w.control.replicas) ≡ some read_write)
  still_rw w s up =
      let (a, v, here, good) = s.consistent.available.0 up in
      (a, ground (arith, s.agree a, here, good))

  normal_mode :
      (w : World S) (h' : Heap S) (n : ℕ) (e : Option IoError)
      → Io.write_at b buf off order w.control.backend w.heap ≡ some (h', n, e)
      → write_in_normal_mode b buf off order w ≡ some (record w { heap = h' }, n, lift_error e)
  unfolding write_in_normal_mode
  normal_mode w h' n e run = rw (run, write_in_normal_mode) refl

  opened :
      (w : World S) (h' : Heap S) (n : ℕ) (e : Option IoError)
      → beyond off (length buf) w.control.size ≡ false
      → has_wo_replica w.control.replicas ≡ false
      → Io.write_at b buf off order w.control.backend w.heap ≡ some (h', n, e)
      → write_at b iterate exists buf off order w ≡ elim e [
        | none ↦ some (record w { heap = h' }, n, none)
        | some x ↦
            elim (handle_error iterate exists b (some (from_backend x)) (record w { heap = h' })) [
              | none ↦ none
              | some (w', e') ↦ some (w', n, e')
            ]
      ]
  unfolding write_at
  opened w h' n none inside no_wo run = rw (inside, no_wo) (rw (normal_mode w h' n none run) refl)
  opened w h' n (some x) inside no_wo run =
      rw (inside, no_wo) (rw (normal_mode w h' n (some x) run) refl)

  -- The errors that name no replica.
  abbrev NamesNone : IoError → Type 0
  NamesNone no_backend = Unit {0}
  NamesNone (backend_error []) = Unit {0}
  NamesNone (backend_error (_ ∷ _)) = ⊥

  left_alone :
      (w : World S) (e : IoError)
      → NamesNone e
      → handle_error iterate exists b (some (from_backend e)) w ≡ some (w, some (from_backend e))
  unfolding handle_error
  left_alone w no_backend u = refl
  left_alone w (backend_error []) u = refl
  left_alone w (backend_error (_ ∷ _)) u = absurd u

  abbrev Done : Option IoError → List ℕ → World S → Heap S → Type 0
  Done e ws w h' =
      (a : String) (i p : ℕ)
      → get_elem? w.control.backend.writer_index i ≡ some a
      → get_elem? ws i ≡ some p
      → (h' p ≡ (b.write_at buf off (w.heap p)).0)
        × (error_at a e ≡ as_entry (b.write_at buf off (w.heap p)).2)

  answered :
      (ws : List ℕ) (w : World S) (h' : Heap S) (n : ℕ) (e : Option IoError)
      → IsSynced w.control
      → w.control.backend.backends_available ≡ true
      → beyond off (length buf) w.control.size ≡ false
      → has_wo_replica w.control.replicas ≡ false
      → ((s : S) (x : ReplicaError) → (b.write_at buf off s).2 ≡ some x → exists (one x) ≡ false)
      → Io.write_at b buf off order w.control.backend w.heap ≡ some (h', n, e)
      → Done e ws w h'
      → Answered ws w
  unfolding Dict.get
  answered ws w h' n none s up inside no_wo writes run done = record {
    after = record w { heap = h' };
    count = n;
    error = none;
    runs = opened w h' n none inside no_wo run;
    synced = s;
    clean = λ a i p m here there now fine. as_entry-none _ (done a i p here there).1;
    kept = λ _. still_rw w s up;
  }
  answered ws w h' n (some no_backend) s up inside no_wo writes run done = record {
    after = record w { heap = h' };
    count = n;
    error = some (from_backend no_backend);
    runs = opened w h' n _ inside no_wo run ∙ rw (left_alone (record w { heap = h' }) _ tt) refl;
    synced = s;
    clean = λ a i p m here there now fine. as_entry-none _ (done a i p here there).1;
    kept = λ h. cc;
  }
  answered ws w h' n (some (backend_error [])) s up inside no_wo writes run done = record {
    after = record w { heap = h' };
    count = n;
    error = some (from_backend (backend_error []));
    runs = opened w h' n _ inside no_wo run ∙ rw (left_alone (record w { heap = h' }) _ tt) refl;
    synced = s;
    clean = λ a i p m here there now fine. as_entry-none _ (done a i p here there).1;
    kept = λ h. cc;
  }
  answered ws w h' n (some (backend_error (f ∷ fs))) s up inside no_wo writes run done =
      let (w', e', handled, ok, now, answer) =
        handle_error-marks exists iterate visits b fs (record w { heap = h' }) f s in
      record {
        after = w';
        count = n;
        error = e';
        runs = opened w h' n _ inside no_wo run ∙ rw handled refl;
        synced = ok;
        clean = λ a i p m here there is fine.
            not_errored-clean exists a (f ∷ fs) (Dict.get a (modes w.control.replicas)) m _
              (done a i p here there).1 (writes (w.heap p)) (sym (now a) ∙ is) fine;
        kept = λ h. (answer.0 h).1;
      }

  -- On a controller whose replicas and backends agree, with a backend available, no WO replica, no
  -- object twice, goroutines that each take effect once, and write errors that do not say that a
  -- snapshot exists: `WriteAt` within the volume returns without a panic, and the replicas and
  -- backends still agree. The own call of every writer whose replica is not ERR afterwards had no
  -- error, and if `WriteAt` returns no error then some replica is RW afterwards.
  pub write_at-Answered :
      (ws : List ℕ) (w : World S)
      → IsSynced w.control
      → w.control.backend.backends_available ≡ true
      → beyond off (length buf) w.control.size ≡ false
      → has_wo_replica w.control.replicas ≡ false
      → ((s : S) (x : ReplicaError) → (b.write_at buf off s).2 ≡ some x → exists (one x) ≡ false)
      → deref w.control.backend.writers ≡ some ws
      → IsDistinct ws
      → Schedules order ws
      → Answered ws w
  write_at-Answered ws w s up inside no_wo writes live distinct schedules =
      let (h', n, e, run, done, others, fine) =
        write_at-names_failures b off order w.control.backend w.heap s.consistent up buf ws live
          distinct schedules in
      answered ws w h' n e s up inside no_wo writes run done

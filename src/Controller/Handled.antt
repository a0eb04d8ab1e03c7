-- ===== src/Controller/Handled.antt =====
-- pkg/controller/control.go: the modes of the replicas after `handleErrorNoLock`.
use longhorn_engine.Prelude.{
  String, Bool, true, false, not, Option, none, some, List, [], ◌∷◌, ◌&&◌, ◌||◌, ◌≡◌, refl, ◌∙◌, ap,
  ◌↔◌, arith, if◌then◌else◌, str_eq, str_eq_iff, Bool-cases, Option-cases, inl, inr,
}
use longhorn_engine.Prelude.Dict
use longhorn_engine.Prelude.Dict.{Dict, IsMap}
use longhorn_engine.Types.{Mode, read_write, errored, CallError}
use longhorn_engine.Replicator.{BackendWrapper, is_read_write}
use longhorn_engine.Replicator.Backend.{Backend}
use longhorn_engine.Replicator.Index.{Visits}
use longhorn_engine.Replicator.Io.{backend_error}
use longhorn_engine.Controller.{Replica, World, ControlError, from_backend, has_rw_replica}
use longhorn_engine.Controller.Errors.{mark_failed, any_exists, handle_error}
use longhorn_engine.Controller.Modes.{modes, IsSynced, moved, get-mark, set_replica_mode-IsSynced}

has_rw-get :
    (ps : List Replica)
    → IsMap (modes ps)
    → has_rw_replica ps ≡ true
    → (a : String) × (Dict.get a (modes ps) ≡ some read_write)
unfolding has_rw_replica Dict.get
has_rw-get [] u h = cc
has_rw-get (p ∷ ps) u h = elim (Bool-cases (is_read_write p.mode)) [
  | inl good ↦
      (p.address, ground (arith, str_eq_iff p.address p.address, good, read_write_only p.mode))
  | inr bad ↦
      let (a, e) = has_rw-get ps u.1 (ground arith) in
      (a, ground (arith, str_eq_iff p.address a, Dict.has-eq-get a (modes ps), u.0))
]
  where
    read_write_only : (m : Mode) → is_read_write m ≡ true → m ≡ read_write
    read_write_only m h = ground arith

get-has_rw :
    (ps : List Replica) (a : String)
    → Dict.get a (modes ps) ≡ some read_write
    → has_rw_replica ps ≡ true
unfolding has_rw_replica Dict.get
get-has_rw [] a h = cc
get-has_rw (p ∷ ps) a h = ground (arith, get-has_rw ps a)

abbrev verdict : ControlError → Bool → Bool → Option ControlError
verdict err x y = if not x then if y then none else some err else some err

verdict-none :
    (err : ControlError) (x y : Bool) → (verdict err x y ≡ none) ↔ ((x ≡ false) × (y ≡ true))
verdict-none err x y = ground arith

module _ (exists : CallError → Bool) where
  -- Whether an error of that address is one for which the replica is marked.
  abbrev pub failed : String → Dict CallError → Bool
  failed a [] = false
  failed a ((k, e) ∷ es) = (str_eq k a && not (exists e)) || failed a es

  abbrev pub mode_after : String → Dict CallError → Option Mode → Option Mode
  mode_after a es none = none
  mode_after a es (some m) = some (if failed a es then errored else m)

  mode_after-step :
      (a k : String) (e : CallError) (es : Dict CallError) (o : Option Mode)
      → exists e ≡ false
      → mode_after a es (elim o [ none ↦ none | some m ↦ some (moved k errored a m) ])
        ≡ mode_after a ((k, e) ∷ es) o
  mode_after-step a k e es none h = refl
  mode_after-step a k e es (some m) h = ground (arith, str_eq_iff a k, str_eq_iff k a)

  mode_after-skip :
      (a k : String) (e : CallError) (es : Dict CallError) (o : Option Mode)
      → exists e ≡ true
      → mode_after a es o ≡ mode_after a ((k, e) ∷ es) o
  mode_after-skip a k e es none h = refl
  mode_after-skip a k e es (some m) h = ground arith

  module _ (iterate : Dict BackendWrapper → Dict BackendWrapper) (visits : Visits iterate)
      {S : Type 0} (b : Backend S) where
    Marked : Dict CallError → World S → World S → Type 0
    Marked es w w' =
        (mark_failed iterate exists b es w ≡ some w')
        × IsSynced w'.control
        × ((a : String)
            → Dict.get a (modes w'.control.replicas)
              ≡ mode_after a es (Dict.get a (modes w.control.replicas)))

    mark_failed_lem :
        (es : Dict CallError) (w : World S) → IsSynced w.control → (w' : World S) × Marked es w w'
    unfolding Marked mark_failed
    mark_failed_lem [] w s = (
      w,
      (
        refl,
        s,
        λ a. elim (Option-cases (Dict.get a (modes w.control.replicas))) [
          | inl gone ↦ ground (arith, gone)
          | inr (m, here) ↦ ground (arith, here)
        ],
      ),
    )
    mark_failed_lem ((k, e) ∷ es) w s = elim (Bool-cases (exists e)) [
      | inl skip ↦
          let (w', (run, ok, now)) = mark_failed_lem es w s in
          (w', (rw (skip, mark_failed) run, ok, λ a. now a ∙ mode_after-skip a k e es _ skip))
      | inr bad ↦
          let (w₁, run₁, s₁, ps) = set_replica_mode-IsSynced iterate visits k errored b w s in
          let (w', (run, ok, now)) = mark_failed_lem es w₁ s₁ in
          (
            w',
            (
              rw (bad, mark_failed) (rw run₁ run),
              ok,
              λ a.
                  now a
                  ∙ ap (λ z. mode_after a es (Dict.get a (modes z))) ps
                  ∙ ap (mode_after a es) (get-mark k a errored w.control.replicas)
                  ∙ mode_after-step a k e es _ bad,
            ),
          )
    ]

    -- On a controller whose replicas and backends agree, `handleErrorNoLock` of a backend error with
    -- an entry never panics, and they still agree. The replicas with an entry that does not say that
    -- a snapshot exists are ERR, the others keep their modes. No error is returned exactly when
    -- no entry says that a snapshot exists and some replica is RW afterwards.
    pub handle_error-marks :
        (es : Dict CallError) (w : World S) (e : String × CallError)
        → IsSynced w.control
        → let err = from_backend (backend_error (e ∷ es)) in
          (w' : World S) × (e' : Option ControlError) × (handle_error iterate exists b (some err) w
            ≡ some (w', e'))
          × IsSynced w'.control
          × ((a : String)
              → Dict.get a (modes w'.control.replicas)
                ≡ mode_after a (e ∷ es) (Dict.get a (modes w.control.replicas)))
          × ((e' ≡ none) ↔ (
              (any_exists iterate exists b (e ∷ es) ≡ false)
              × ((a : String) × (Dict.get a (modes w'.control.replicas) ≡ some read_write))))
    unfolding handle_error Marked
    handle_error-marks es w e s =
        let (w', (run, ok, now)) = mark_failed_lem (e ∷ es) w s in
        let one = has_rw-get w'.control.replicas ok.keys in
        let back = get-has_rw w'.control.replicas in
        let err = from_backend (backend_error (e ∷ es)) in
        let x = any_exists iterate exists b (e ∷ es) in
        let y = has_rw_replica w'.control.replicas in
        let (there, here) = verdict-none err x y in
        (
          w',
          verdict err x y,
          rw (run, handle_error) refl,
          ok,
          now,
          (
            λ h. let (new, good) = there h in (new, one good),
            λ h. let (new, (a, good)) = h in here (new, back a good),
          ),
        )

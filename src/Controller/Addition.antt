-- ===== src/Controller/Addition.antt =====
-- pkg/controller/control.go: what adding a replica makes of the list of replicas.
use longhorn_engine.Prelude.{
  ℕ, String, false, Option, none, some, List, [], ◌∷◌, ◌++◌, ◌≡◌, refl, ◌∙◌, ap, arith,
  if◌then◌else◌, str_eq, str_eq_iff, Bool-cases, Option-cases, inl, inr,
}
use longhorn_engine.Prelude.Dict
use longhorn_engine.Prelude.Dict.{Dict, IsMap}
use longhorn_engine.Types.{Mode}
use longhorn_engine.Replicator.{BackendWrapper, is_errored, add_backend}
use longhorn_engine.Replicator.Backend.{Backend}
use longhorn_engine.Replicator.Index.{
  Visits, change-IsConsistent, changes-MapsTo, empty_replicator-IsConsistent,
}
use longhorn_engine.Controller.{Controller, Replica, World, has_replica, reset}
use longhorn_engine.Controller.Replicas.{append_replica}
use longhorn_engine.Controller.Modes.{modes, IsSynced}

-- A controller without replicas.
pub reset-IsSynced : (c : Controller) → IsSynced (reset c)
unfolding reset Dict.get
reset-IsSynced c = record {
  keys = tt;
  agree = λ a. refl;
  consistent = empty_replicator-IsConsistent;
  live = λ a w h n. cc;
}

append-put :
    (address : String) (mode : Mode) (ps : List Replica)
    → has_replica address ps ≡ false
    → modes (ps ++ (record { address = address; mode = mode } ∷ []))
      ≡ Dict.put address mode (modes ps)
unfolding has_replica Dict.put
append-put address mode [] h = refl
append-put address mode (p ∷ ps) h = ground (arith, append-put address mode ps)

not_has_replica :
    (address : String) (ps : List Replica)
    → has_replica address ps ≡ false
    → Dict.get address (modes ps) ≡ none
unfolding has_replica Dict.get
not_has_replica address [] h = refl
not_has_replica address (p ∷ ps) h = ground (arith, not_has_replica address ps)

module _ (iterate : Dict BackendWrapper → Dict BackendWrapper) (visits : Visits iterate)
    {S : Type 0} (b : Backend S) (address : String) (new : Option ℕ) (mode : Mode) where
  added-get :
      (w : World S) (a : String)
      → has_replica address w.control.replicas ≡ false
      → Dict.get a (modes (append_replica iterate b address new mode w).control.replicas)
        ≡ (if str_eq address a then some mode else Dict.get a (modes w.control.replicas))
  unfolding append_replica
  added-get w a fresh =
      ap (Dict.get a) (append-put address mode w.control.replicas fresh)
      ∙ Dict.get-put address a mode (modes w.control.replicas)

  added-backends :
      (w : World S) (a : String)
      → IsSynced w.control
      → has_replica address w.control.replicas ≡ false
      → Dict.get a (add_backend iterate address new mode w.control.backend).backends ≡ (
          if str_eq address a
          then some (record { backend = new; mode = mode })
          else Dict.get a w.control.backend.backends)
  added-backends w a s fresh =
      let n =
        (changes-MapsTo iterate address new mode w.control.backend a s.consistent.keys).added in
      let gone = not_has_replica address w.control.replicas fresh in
      elim (Option-cases (Dict.get a w.control.backend.backends)) [
        | inl free ↦ ground (arith, n, free)
        | inr (v, old) ↦ ground (arith, n, old, gone, s.agree address, str_eq_iff address a)
      ]

  -- On a controller whose replicas and backends agree, for an address that is not there and a
  -- backend that is not nil unless the mode is ERR, the end of `addReplicaNoLock` leaves them in
  -- agreement, with the address in the given mode and every other one in its old mode.
  pub append_replica-IsSynced :
      (w : World S)
      → IsSynced w.control
      → has_replica address w.control.replicas ≡ false
      → (is_errored mode ≡ false → (p : ℕ) × (new ≡ some p))
      → let w' = append_replica iterate b address new mode w in
        IsSynced w'.control
        × ((a : String)
            → Dict.get a (modes w'.control.replicas)
              ≡ (if str_eq address a then some mode else Dict.get a (modes w.control.replicas)))
  unfolding append_replica
  append_replica-IsSynced w s fresh has_object = (
    record {
      keys =
          rw (append-put address mode w.control.replicas fresh)
            (Dict.put-IsMap address mode (modes w.control.replicas) s.keys);
      agree = λ a. ground (arith, added-get w a fresh, added-backends w a s fresh, s.agree a);
      consistent =
          (change-IsConsistent iterate visits address new mode w.control.backend s.consistent).0;
      live = λ a v here fine. elim (Bool-cases (str_eq address a)) [
        | inl same ↦
            let (p, e) = has_object (ground (arith, added-backends w a s fresh)) in
            (p, ground (arith, added-backends w a s fresh))
        | inr other ↦ s.live a v (ground (arith, added-backends w a s fresh)) fine
      ];
    },
    λ a. added-get w a fresh,
  )

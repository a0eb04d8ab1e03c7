-- ===== src/Controller/Removal.antt =====
-- pkg/controller/control.go: what `RemoveReplica` leaves of the replicas.
use longhorn_engine.Prelude.{
  ℕ, String, false, none, some, List, [], ◌∷◌, ◌≡◌, refl, ◌∙◌, ap, arith, if◌then◌else◌, str_eq,
  str_eq_iff, Bool-cases, inl, inr, length, ◌==◌, ◌&&◌,
}
use longhorn_engine.Prelude.Dict
use longhorn_engine.Prelude.Dict.{Dict, IsMap}
use longhorn_engine.Types.{read_write}
use longhorn_engine.Replicator.{BackendWrapper, is_errored, remove_backend}
use longhorn_engine.Replicator.Backend.{Backend}
use longhorn_engine.Replicator.Index.{Visits, change-IsConsistent, changes-MapsTo}
use longhorn_engine.Controller.{
  Controller, Replica, World, ControlError, drop_replica, remove_replica, has_replica,
}
use longhorn_engine.Controller.Modes.{modes, mode_in, IsSynced}

not_has_replica :
    (address : String) (ps : List Replica)
    → has_replica address ps ≡ false
    → Dict.get address (modes ps) ≡ none
unfolding has_replica Dict.get
not_has_replica address [] h = refl
not_has_replica address (p ∷ ps) h = ground (arith, not_has_replica address ps)

module _ (iterate : Dict BackendWrapper → Dict BackendWrapper) (visits : Visits iterate)
    {S : Type 0} (b : Backend S) (address : String) where
  drop-delete :
      (ps : List Replica)
      → modes (drop_replica iterate b address ps) ≡ Dict.delete address (modes ps)
  unfolding drop_replica Dict.delete
  drop-delete [] = refl
  drop-delete (p ∷ ps) = ground (arith, drop-delete ps)

  abbrev removed : Controller → Controller
  removed c = record c {
    replicas = drop_replica iterate b address c.replicas;
    backend = remove_backend iterate address c.backend;
  }

  removed-get :
      (c : Controller) (a : String)
      → IsSynced c
      → Dict.get a (modes (removed c).replicas)
        ≡ (if str_eq address a then none else Dict.get a (modes c.replicas))
  removed-get c a s =
      ap (Dict.get a) (drop-delete c.replicas) ∙ Dict.get-delete address a (modes c.replicas) s.keys

  removed-agree :
      (c : Controller) (a : String)
      → IsSynced c
      → Dict.get a (modes (removed c).replicas) ≡ mode_in a (removed c).backend.backends
  removed-agree c a s =
      let n =
        (changes-MapsTo iterate address none read_write c.backend a s.consistent.keys).removed in
      ground (arith, removed-get c a s, n, s.agree a)

  removed-live :
      (c : Controller) (a : String) (w : BackendWrapper)
      → IsSynced c
      → Dict.get a (removed c).backend.backends ≡ some w
      → is_errored w.mode ≡ false
      → (p : ℕ) × (w.backend ≡ some p)
  removed-live c a w s now fine =
      let n =
        (changes-MapsTo iterate address none read_write c.backend a s.consistent.keys).removed in
      s.live a w (ground (arith, n, now)) fine

  removed-IsSynced : (c : Controller) → IsSynced c → IsSynced (removed c)
  removed-IsSynced c s = record {
    keys = rw (drop-delete c.replicas) (Dict.delete-IsMap address (modes c.replicas) s.keys);
    agree = λ a. removed-agree c a s;
    consistent =
        (change-IsConsistent iterate visits address none read_write c.backend s.consistent).2;
    live = λ a w now fine. removed-live c a w s now fine;
  }

  absent :
      (ps : List Replica) (a : String)
      → has_replica address ps ≡ false
      → Dict.get a (modes ps) ≡ (if str_eq address a then none else Dict.get a (modes ps))
  absent ps a gone = ground (arith, str_eq_iff address a, not_has_replica address ps gone)

  -- On a controller whose replicas and backends agree, `RemoveReplica` leaves them in agreement. With
  -- no error the address is gone and every other one keeps its mode; with an error nothing changes.
  pub remove_replica-IsSynced :
      (w : World S)
      → IsSynced w.control
      → let (w', e) = remove_replica iterate b address w in
        IsSynced w'.control
        × (e ≡ none
            → (a : String)
            → Dict.get a (modes w'.control.replicas)
              ≡ (if str_eq address a then none else Dict.get a (modes w.control.replicas)))
        × ((x : ControlError) → e ≡ some x → w' ≡ w)
  unfolding remove_replica
  remove_replica-IsSynced w s = elim (Bool-cases (has_replica address w.control.replicas)) [
    | inl there ↦ elim (Bool-cases (length w.control.replicas == 1 && w.control.frontend_up)) [
      | inl last ↦ rw (there, last) (s, (λ h. cc), λ x h. refl)
      | inr more ↦
          rw (there, more)
            (removed-IsSynced w.control s, (λ h a. removed-get w.control a s), λ x h. cc)
    ]
    | inr gone ↦ rw gone (s, (λ h a. absent w.control.replicas a gone), λ x h. cc)
  ]

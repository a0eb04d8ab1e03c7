-- ===== src/Controller/Modes.antt =====
-- pkg/controller/control.go: the list of replicas against the replicator's backends, and what
-- `setReplicaModeNoLock` does to both.
use longhorn_engine.Prelude.{
  ℕ, String, Bool, true, false, not, Option, none, some, List, [], ◌∷◌, ◌++◌, ◌&&◌, ◌||◌, ◌≡◌, refl,
  sym, ◌∙◌, arith, if◌then◌else◌, str_eq, str_eq_iff, Bool-cases, Option-cases, inl, inr,
}
use longhorn_engine.Prelude.Dict
use longhorn_engine.Prelude.Dict.{Dict, IsMap}
use longhorn_engine.Types.{Mode}
use longhorn_engine.Replicator.{BackendWrapper, Replicator, is_errored, set_mode, set_mode_stops}
use longhorn_engine.Replicator.Backend.{Backend}
use longhorn_engine.Replicator.Index.{Visits, IsConsistent, change-IsConsistent, changes-MapsTo}
use longhorn_engine.Controller.{Replica, Controller, World, set_modes, set_replica_mode, stop_all}

-- The replicas as a map from addresses to modes.
abbrev pub modes : List Replica → Dict Mode
modes [] = []
modes (p ∷ ps) = (p.address, p.mode) ∷ modes ps

-- The mode of an address in the replicator.
abbrev pub mode_in : String → Dict BackendWrapper → Option Mode
mode_in a es = elim (Dict.get a es) [ none ↦ none | some w ↦ some w.mode ]

-- Between two operations: one entry for each address, the same modes in both lists, an object behind
-- every replica that is not ERR.
pub record IsSynced (c : Controller) : Type 0 where
  pub keys : IsMap (modes c.replicas)
  pub agree : (a : String) → Dict.get a (modes c.replicas) ≡ mode_in a c.backend.backends
  pub consistent : IsConsistent c.backend
  pub live :
      (a : String) (w : BackendWrapper)
      → Dict.get a c.backend.backends ≡ some w
      → is_errored w.mode ≡ false
      → (p : ℕ) × (w.backend ≡ some p)

-- What a change of mode makes of a replica's mode: an ERR replica keeps its mode.
abbrev pub moved : String → Mode → String → Mode → Mode
moved address mode a m = if str_eq a address && not (is_errored m) then mode else m

abbrev pub mark : String → Mode → List Replica → List Replica
mark address mode [] = []
mark address mode (p ∷ ps) =
    record p { mode = moved address mode p.address p.mode } ∷ mark address mode ps

-- Whether a replica of that address has a mode that can change.
abbrev pub hits : String → List Replica → Bool
hits address [] = false
hits address (p ∷ ps) = (str_eq p.address address && not (is_errored p.mode)) || hits address ps

has-mark :
    (address k : String) (mode : Mode) (ps : List Replica)
    → Dict.has k (modes (mark address mode ps)) ≡ Dict.has k (modes ps)
unfolding Dict.has
has-mark address k mode [] = refl
has-mark address k mode (p ∷ ps) = ground (arith, has-mark address k mode ps)

mark-IsMap :
    (address : String) (mode : Mode) (ps : List Replica)
    → IsMap (modes ps)
    → IsMap (modes (mark address mode ps))
mark-IsMap address mode [] u = tt
mark-IsMap address mode (p ∷ ps) u =
    (has-mark address p.address mode ps ∙ u.0, mark-IsMap address mode ps u.1)

pub get-mark :
    (address a : String) (mode : Mode) (ps : List Replica)
    → Dict.get a (modes (mark address mode ps))
      ≡ elim (Dict.get a (modes ps)) [ none ↦ none | some m ↦ some (moved address mode a m) ]
unfolding Dict.get
get-mark address a mode [] = refl
get-mark address a mode (p ∷ ps) =
    ground (arith, str_eq_iff p.address a, get-mark address a mode ps)

no_hit :
    (address : String) (mode : Mode) (ps : List Replica)
    → hits address ps ≡ false
    → mark address mode ps ≡ ps
no_hit address mode [] h = refl
no_hit address mode (p ∷ ps) h = ground (arith, no_hit address mode ps)

not_has-hits :
    (address : String) (ps : List Replica)
    → Dict.has address (modes ps) ≡ false
    → hits address ps ≡ false
unfolding Dict.has
not_has-hits address [] h = refl
not_has-hits address (p ∷ ps) h = ground (arith, not_has-hits address ps)

hits-get :
    (address : String) (ps : List Replica)
    → IsMap (modes ps)
    → hits address ps ≡ true
    → (m : Mode) × (Dict.get address (modes ps) ≡ some m) × (is_errored m ≡ false)
unfolding Dict.get
hits-get address [] u h = cc
hits-get address (p ∷ ps) u h = elim (Bool-cases (str_eq p.address address)) [
  | inl same ↦
      let gone : hits address ps ≡ false =
        not_has-hits address ps (ground (arith, str_eq_iff p.address address, u)) in
      (p.mode, ground arith, ground arith)
  | inr other ↦ let (m, e, n) = hits-get address ps u.1 (ground arith) in (m, ground arith, n)
]

module _ (iterate : Dict BackendWrapper → Dict BackendWrapper) (address : String)
    (mode : Mode) where
  set_modes_miss :
      (ps : List Replica) (r : Replicator)
      → hits address ps ≡ false
      → set_modes iterate address mode ps r ≡ some (ps, r, [])
  unfolding set_modes
  set_modes_miss [] r h = refl
  set_modes_miss (p ∷ ps) r h = ground (arith, set_modes_miss ps r)

  set_modes_hit :
      (ps : List Replica) (r : Replicator) (xs : List ℕ)
      → IsMap (modes ps)
      → hits address ps ≡ true
      → set_mode_stops address mode r ≡ some xs
      → set_modes iterate address mode ps r
        ≡ some (mark address mode ps, set_mode iterate address mode r, xs ++ [])
  unfolding set_modes
  set_modes_hit [] r xs u h s = cc
  set_modes_hit (p ∷ ps) r xs u h s = elim (Bool-cases (str_eq p.address address)) [
    | inl same ↦
        let gone : hits address ps ≡ false =
          not_has-hits address ps (ground (arith, str_eq_iff p.address address, u)) in
        ground (
          arith,
          s,
          gone,
          no_hit address mode ps gone,
          set_modes_miss ps (set_mode iterate address mode r) gone,
        )
    | inr other ↦ ground (arith, set_modes_hit ps r xs u.1)
  ]

mode_in-get :
    (a : String) (m : Mode) (es : Dict BackendWrapper)
    → mode_in a es ≡ some m
    → (w : BackendWrapper) × (Dict.get a es ≡ some w) × (w.mode ≡ m)
mode_in-get a m es h = elim (Option-cases (Dict.get a es)) [
  | inl gone ↦ ground (arith, gone)
  | inr (w, here) ↦ (w, here, ground (arith, here))
]

module _ (iterate : Dict BackendWrapper → Dict BackendWrapper) (visits : Visits iterate)
    (address : String) (mode : Mode) where
  -- The replicator of a controller whose replica `address`, not ERR before, changes its mode.
  abbrev changed : Controller → Controller
  changed c = record c {
    replicas = mark address mode c.replicas;
    backend = set_mode iterate address mode c.backend;
  }

  changed-agree :
      (c : Controller) (m : Mode) (a : String)
      → IsSynced c
      → Dict.get address (modes c.replicas) ≡ some m
      → is_errored m ≡ false
      → Dict.get a (modes (changed c).replicas) ≡ mode_in a (changed c).backend.backends
  changed-agree c m a s here fine =
      let n = (changes-MapsTo iterate address none mode c.backend a s.consistent.keys).moded in
      ground (
        arith,
        get-mark address a mode c.replicas,
        n,
        s.agree a,
        here,
        str_eq_iff address a,
        str_eq_iff a address,
      )

  changed-live :
      (c : Controller) (m : Mode) (a : String) (w : BackendWrapper)
      → IsSynced c
      → Dict.get address (modes c.replicas) ≡ some m
      → is_errored m ≡ false
      → Dict.get a (changed c).backend.backends ≡ some w
      → is_errored w.mode ≡ false
      → (p : ℕ) × (w.backend ≡ some p)
  changed-live c m a w s here fine now ok =
      let n = (changes-MapsTo iterate address none mode c.backend a s.consistent.keys).moded in
      elim (Option-cases (Dict.get a c.backend.backends)) [
        | inl gone ↦ ground (arith, gone, n)
        | inr (v, old) ↦ elim (Bool-cases (str_eq address a)) [
          | inl same ↦
              let (u, there, is_m) =
                mode_in-get address m c.backend.backends (sym (s.agree address) ∙ here) in
              let (p, e) = s.live address u there (ground (arith, is_m)) in
              (p, ground (arith, n, old, same, str_eq_iff address a, there, e))
          | inr other ↦ s.live a w (ground (arith, n, old)) ok
        ]
      ]

  changed-IsSynced :
      (c : Controller) (m : Mode)
      → IsSynced c
      → Dict.get address (modes c.replicas) ≡ some m
      → is_errored m ≡ false
      → IsSynced (changed c)
  changed-IsSynced c m s here fine = record {
    keys = mark-IsMap address mode c.replicas s.keys;
    agree = λ a. changed-agree c m a s here fine;
    consistent = (change-IsConsistent iterate visits address none mode c.backend s.consistent).1;
    live = λ a w now ok. changed-live c m a w s here fine now ok;
  }

  stops_some :
      (c : Controller) (m : Mode)
      → IsSynced c
      → Dict.get address (modes c.replicas) ≡ some m
      → is_errored m ≡ false
      → (xs : List ℕ) × (set_mode_stops address mode c.backend ≡ some xs)
  unfolding set_mode_stops
  stops_some c m s here fine =
      let (u, there, is_m) =
        mode_in-get address m c.backend.backends (sym (s.agree address) ∙ here) in
      let (p, e) = s.live address u there (ground (arith, is_m)) in
      elim (Bool-cases (is_errored mode)) [
        | inl bad ↦ (p ∷ [], ground (arith, there, e, bad))
        | inr fine ↦ ([], ground (arith, there, fine))
      ]

  module _ {S : Type 0} (b : Backend S) where
    -- On a controller whose replicas and backends agree, `setReplicaModeNoLock` never panics, and
    -- they still agree; the replica of that address has the new mode unless it was ERR, and every
    -- other replica is as it was.
    pub set_replica_mode-IsSynced :
        (w : World S)
        → IsSynced w.control
        → (w' : World S) × (set_replica_mode iterate b address mode w ≡ some w')
          × IsSynced w'.control
          × (w'.control.replicas ≡ mark address mode w.control.replicas)
    unfolding set_replica_mode
    set_replica_mode-IsSynced w s = elim (Bool-cases (hits address w.control.replicas)) [
      | inl hit ↦
          let (m, here, fine) = hits-get address w.control.replicas s.keys hit in
          let (xs, stops) = stops_some w.control m s here fine in
          (
            record { control = changed w.control; heap = stop_all b (xs ++ []) w.heap },
            rw
                (
                  set_modes_hit iterate address mode w.control.replicas w.control.backend xs s.keys
                      hit stops,
                  set_replica_mode,
                )
                refl,
            changed-IsSynced w.control m s here fine,
            refl,
          )
      | inr miss ↦ (
        record { control = w.control; heap = stop_all b [] w.heap },
        rw
            (
              set_modes_miss iterate address mode w.control.replicas w.control.backend miss,
              set_replica_mode,
            )
            refl,
        s,
        sym (no_hit address mode w.control.replicas miss),
      )
    ]

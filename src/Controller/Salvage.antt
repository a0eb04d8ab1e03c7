-- ===== src/Controller/Salvage.antt =====
-- pkg/controller/control.go: `salvageRevisionCounterDisabledReplicas`, which chooses the one replica to go
-- on with. What the backends answer is an argument; times are nanoseconds since 1970, none for the zero
-- time.
use longhorn_engine.Prelude.{
  ℕ, ◌+◌, String, Bool, Option, none, some, List, [], ◌∷◌, ◌==◌, ◌&&◌, ◌||◌, ltb, if◌then◌else◌,
  str_eq,
}
use longhorn_engine.Types.{errored, read_write, ReplicaError, plain}
use longhorn_engine.DiffDisk.{Checked, ok, fail}
use longhorn_engine.Replicator.Backend.{Backend}
use longhorn_engine.Prelude.Dict.{Dict}
use longhorn_engine.Replicator.{BackendWrapper, is_errored}
use longhorn_engine.Controller.{Replica, World, set_replica_mode}

-- `types.ReplicaSalvageInfo`
pub record SalvageInfo : Type 0 where
  pub address : String
  pub last_modify_time : ℕ
  pub head_file_size : ℕ

-- Five seconds.
abbrev pub last_modify_check_period : ℕ
last_modify_check_period = 5000000000

-- The loop over the replicas: the candidates.
unfoldable pub candidates :
    (String → Checked ℕ) → (String → Checked ℕ) → List Replica → Checked (List SalvageInfo)
candidates modified head_size [] = ok []
candidates modified head_size (r ∷ rs) =
    let rest = candidates modified head_size rs in
    if is_errored r.mode then rest else elim (modified r.address) [
      | fail e ↦ fail e
      | ok time ↦ elim (head_size r.address) [
        | fail e ↦ fail e
        | ok size ↦ elim rest [
          | fail e ↦ fail e
          | ok infos ↦ ok (
              record { address = r.address; last_modify_time = time; head_file_size = size }
              ∷ infos)
        ]
      ]
    ]

-- The latest time that the same loop keeps.
unfoldable pub latest_from : Option ℕ → List SalvageInfo → Option ℕ
latest_from t [] = t
latest_from none (x ∷ xs) = latest_from (some x.last_modify_time) xs
latest_from (some t) (x ∷ xs) =
    latest_from (some (if ltb t x.last_modify_time then x.last_modify_time else t)) xs

-- The test of a candidate's time against the latest.
abbrev pub recent : ℕ → SalvageInfo → Bool
recent latest x = ltb latest (x.last_modify_time + last_modify_check_period)

-- Whether a candidate takes the place of the best one so far.
abbrev pub better : SalvageInfo → SalvageInfo → Bool
better x y =
    ltb y.head_file_size x.head_file_size
    || (x.head_file_size == y.head_file_size && ltb y.last_modify_time x.last_modify_time)

-- The loop for the best candidate.
unfoldable pub best_from : ℕ → Option SalvageInfo → List SalvageInfo → Option SalvageInfo
best_from latest b [] = b
best_from latest none (x ∷ xs) = best_from latest (if recent latest x then some x else none) xs
best_from latest (some b) (x ∷ xs) =
    best_from latest (some (if recent latest x && better x b then x else b)) xs

-- The choice.
unfoldable pub best_candidate : List SalvageInfo → Checked SalvageInfo
unfolding latest_from best_from
best_candidate infos = elim (latest_from none infos) [
  | none ↦ fail (plain "cannot find any replica for salvage")
  | some latest ↦ elim (best_from latest none infos) [
    | none ↦ fail (plain "BUG: Should find one candidate for salvage")
    | some b ↦ ok b
  ]
]

module _ (iterate : Dict BackendWrapper → Dict BackendWrapper) {S : Type 0} (b : Backend S) where
  -- The loop that leaves the best replica alone as good.
  unfoldable pub mark_others : String → List Replica → World S → Option (World S)
  unfolding set_replica_mode
  mark_others best [] w = some w
  mark_others best (r ∷ rs) w =
      elim (set_replica_mode iterate b r.address
        (if str_eq r.address best then read_write else errored) w) [
          | none ↦ none
          | some w' ↦ mark_others best rs w'
        ]

  -- `salvageRevisionCounterDisabledReplicas`
  unfoldable pub salvage :
      (String → Checked ℕ) → (String → Checked ℕ) → World S → Option (World S × Option ReplicaError)
  unfolding candidates best_candidate mark_others
  salvage modified head_size w = elim (candidates modified head_size w.control.replicas) [
    | fail e ↦ some (w, some e)
    | ok infos ↦ elim (best_candidate infos) [
      | fail e ↦ some (w, some e)
      | ok best ↦ elim (mark_others best.address w.control.replicas w) [
        | none ↦ none
        | some w' ↦ some (w', none)
      ]
    ]
  ]

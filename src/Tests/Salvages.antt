-- ===== src/Tests/Salvages.antt =====
-- The theorem on the choice of a salvage, at three replicas.
use longhorn_engine.Prelude.{ℕ, ◌+◌, ◌<◌, ◌≤◌, String, none, some, List, [], ◌∷◌, get_elem?, ◌≡◌}
use longhorn_engine.DiffDisk.{ok}
use longhorn_engine.Controller.Salvage.{
  SalvageInfo, last_modify_check_period, latest_from, best_candidate,
}
use longhorn_engine.Controller.Best.{AtMost, best_candidate_lem}

abbrev info : String → ℕ → ℕ → SalvageInfo
info a t n = record { address = a; last_modify_time = t; head_file_size = n }

-- The largest head is too old.
abbrev late_infos : List SalvageInfo
late_infos = info "b" 9000000000 4096 ∷ info "c" 8000000000 8192 ∷ []

best_candidate_lem_example :
    (r : SalvageInfo) × (latest : ℕ) × (best_candidate (info "a" 0 16384 ∷ late_infos) ≡ ok r)
    × (latest_from none (info "a" 0 16384 ∷ late_infos) ≡ some latest)
    × ((i : ℕ) (x : SalvageInfo)
        → get_elem? (info "a" 0 16384 ∷ late_infos) i ≡ some x
        → (x.last_modify_time ≤ latest)
          × (latest < x.last_modify_time + last_modify_check_period → AtMost x r))
    × (i : ℕ) × (get_elem? (info "a" 0 16384 ∷ late_infos) i ≡ some r)
    × (latest < r.last_modify_time + last_modify_check_period)
best_candidate_lem_example = best_candidate_lem (info "a" 0 16384) late_infos

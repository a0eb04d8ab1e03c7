-- ===== src/Tests/Agents.antt =====
-- The theorem on the list of backups, and what its removing loop passes over.
use longhorn_engine.Prelude.{ℕ, min, ◌≤◌, String, none, some, List, [], ◌∷◌, length, ◌≡◌, refl}
use longhorn_engine.Prelude.Dict
use longhorn_engine.DiffDisk.{ok}
use longhorn_engine.SyncAgent.Backups.{BackupInfo, retain_backup_state_counts, refresh}
use longhorn_engine.SyncAgent.Retention.{of_state, refresh_lem}

abbrev backup : String → String → BackupInfo ℕ
backup id st = record { backup_id = id; state = st; status = 0 }

abbrev three_backups : List (BackupInfo ℕ)
three_backups = backup "a" "complete" ∷ backup "b" "complete" ∷ backup "c" "complete" ∷ []

-- The oldest of three complete backups stays when only one is to be kept.
refresh_skips :
    refresh (("complete", 1) ∷ []) three_backups
    ≡ ok (backup "a" "complete" ∷ backup "c" "complete" ∷ [])
unfolding refresh
refresh_skips = refl

refresh_lem_example :
    (rest : List (BackupInfo ℕ)) × (refresh retain_backup_state_counts three_backups ≡ ok rest)
    × ((st : String) (limit : ℕ)
        → Dict.get st retain_backup_state_counts ≡ some limit
        → min limit (length (of_state st three_backups)) ≤ length (of_state st rest))
    × ((st : String)
        → Dict.get st retain_backup_state_counts ≡ none
        → of_state st rest ≡ of_state st three_backups)
unfolding Dict.has
refresh_lem_example = refresh_lem retain_backup_state_counts three_backups (refl, (refl, tt))

-- ===== src/SyncAgent/Hashes.antt =====
-- pkg/sync/rpc/list.go: the list of snapshot hash jobs. Its entries are those of Backups with the
-- snapshot's name as the id, and `purgePartialRetained` is the loop of the other list's `refresh`.
use longhorn_engine.Prelude.{
  ℕ, String, Option, none, some, List, [], ◌∷◌, ◌++◌, ◌||◌, if◌then◌else◌, str_eq,
}
use longhorn_engine.Types.{ReplicaError, plain}
use longhorn_engine.DiffDisk.{Checked, ok, fail}
use longhorn_engine.SyncAgent.Backups.{BackupInfo, refresh, find_backup, delete_from}

abbrev pub max_snapshot_hash_job_size : ℕ
max_snapshot_hash_job_size = 10

-- The states that `refresh` purges, with their limit.
abbrev pub purged_states : List (String × ℕ)
purged_states =
    ("complete", max_snapshot_hash_job_size) ∷ ("error", max_snapshot_hash_job_size) ∷ []

module _ {S : Type 0} where
  -- The loop of `Add`: the list without a finished job of the name, or an error for a running one.
  unfoldable pub without_finished : String → List (BackupInfo S) → Checked (List (BackupInfo S))
  unfolding find_backup delete_from
  without_finished name infos = elim (find_backup name infos) [
    | none ↦ ok infos
    | some b ↦
        if str_eq b.state "complete" || str_eq b.state "error"
        then elim (delete_from name infos) [ none ↦ ok infos | some rest ↦ ok rest ]
        else fail (plain "hashing snapshot is in progress")
  ]

  -- `Add`
  unfoldable pub add :
      BackupInfo S → List (BackupInfo S) → List (BackupInfo S) × Option ReplicaError
  unfolding without_finished refresh
  add b infos =
      if str_eq b.backup_id ""
      then (infos, some (plain "snapshot name is required"))
      else elim (without_finished b.backup_id infos) [
        | fail e ↦ (infos, some e)
        | ok rest ↦
            let added = rest ++ (b ∷ []) in
            elim (refresh purged_states added) [ fail e ↦ (added, some e) | ok kept ↦ (kept, none) ]
      ]

  -- `Get`
  unfoldable pub get : String → List (BackupInfo S) → List (BackupInfo S) × Checked (BackupInfo S)
  unfolding refresh find_backup
  get name infos =
      if str_eq name ""
      then (infos, fail (plain "snapshot name is required"))
      else elim (refresh purged_states infos) [
        | fail e ↦ (infos, fail e)
        | ok rest ↦ elim (find_backup name rest) [
          | none ↦ (rest, fail (plain "snapshot is not found"))
          | some b ↦ (rest, ok b)
        ]
      ]

  -- `Delete`
  unfoldable pub delete : String → List (BackupInfo S) → List (BackupInfo S)
  unfolding delete_from
  delete name infos = elim (delete_from name infos) [ none ↦ infos | some rest ↦ rest ]

-- ===== src/SyncAgent/Backups.antt =====
-- pkg/sync/rpc/list.go: the list of backups, oldest first, with the limits on finished ones. A backup's
-- status is shared with the code that runs it; the list reads its state. An index that goes down to
-- -1 is the number of places at or below it. The high water mark is only for the log.
use longhorn_engine.Prelude.{
  ℕ, zero, suc, ◌+◌, String, Bool, false, Option, none, some, List, [], ◌∷◌, ◌++◌, ◌==◌, length,
  get_elem?, leb, if◌then◌else◌, str_eq,
}
use longhorn_engine.Types.{ReplicaError, plain}
use longhorn_engine.DiffDisk.{Checked, ok, fail}

-- `BackupInfo`, with the state of the status behind it; `S` is the rest of the status.
pub record BackupInfo (S : Type 0) : Type 0 where
  pub backup_id : String
  pub state : String
  pub status : S

-- `retainBackupStateCounts`, in the order in which `range` meets it.
abbrev pub retain_backup_state_counts : List (String × ℕ)
retain_backup_state_counts = ("complete", 5) ∷ ("error", 10) ∷ []

module _ {S : Type 0} where
  abbrev pub drop_index : List (BackupInfo S) → ℕ → List (BackupInfo S)
  drop_index [] i = []
  drop_index (x ∷ xs) zero = xs
  drop_index (x ∷ xs) (suc i) = x ∷ drop_index xs i

  -- `remove`
  unfoldable pub remove : List (BackupInfo S) → ℕ → Checked (List (BackupInfo S))
  remove infos index =
      if leb (length infos) index
      then fail (plain "BUG: attempting to delete an out of range index entry")
      else ok (drop_index infos index)

  -- Whether the entry at an index has a state.
  unfoldable pub has_state : String → List (BackupInfo S) → ℕ → Bool
  has_state st infos i = elim (get_elem? infos i) [ none ↦ false | some b ↦ str_eq b.state st ]

  -- The counting loop of `refresh`: the places that are left and the count.
  unfoldable pub count_down : String → ℕ → List (BackupInfo S) → ℕ → ℕ → ℕ × ℕ
  unfolding has_state
  count_down st limit infos zero count = (0, count)
  count_down st limit infos (suc i) count =
      let more = count_down st limit infos i (count + 1) in
      let same = count_down st limit infos i count in
      if has_state st infos i then (if count == limit then (suc i, count) else more) else same

  -- The removing loop of `refresh`, which moves past one more place after each removal.
  unfoldable pub remove_down : String → ℕ → List (BackupInfo S) → Checked (List (BackupInfo S))
  unfolding has_state remove
  remove_down st zero infos = ok infos
  remove_down st (suc zero) infos = if has_state st infos 0 then remove infos 0 else ok infos
  remove_down st (suc (suc i)) infos =
      if has_state st infos (suc i)
      then elim (remove infos (suc i)) [ fail e ↦ fail e | ok rest ↦ remove_down st i rest ]
      else remove_down st (suc i) infos

  -- One round of `refresh`.
  unfoldable pub refresh_state : String → ℕ → List (BackupInfo S) → Checked (List (BackupInfo S))
  unfolding count_down remove_down
  refresh_state st limit infos =
      let (left, count) = count_down st limit infos (length infos) 0 in
      if count == limit then remove_down st left infos else ok infos

  -- `refresh`
  unfoldable pub refresh : List (String × ℕ) → List (BackupInfo S) → Checked (List (BackupInfo S))
  unfolding refresh_state
  refresh [] infos = ok infos
  refresh ((st, limit) ∷ limits) infos = elim (refresh_state st limit infos) [
    | fail e ↦ fail e
    | ok rest ↦ refresh limits rest
  ]

  -- The loop of `BackupDelete`.
  unfoldable pub delete_from : String → List (BackupInfo S) → Option (List (BackupInfo S))
  delete_from id [] = none
  delete_from id (b ∷ bs) =
      let rest = delete_from id bs in
      if str_eq b.backup_id id then some bs else elim rest [ none ↦ none | some cs ↦ some (b ∷ cs) ]

  -- `BackupDelete`
  unfoldable pub backup_delete :
      String → List (BackupInfo S) → List (BackupInfo S) × Option ReplicaError
  unfolding delete_from
  backup_delete id infos = elim (delete_from id infos) [
    | none ↦ (infos, some (plain "backup not found"))
    | some rest ↦ (rest, none)
  ]

  -- `BackupAdd`
  unfoldable pub backup_add :
      List (String × ℕ)
      → BackupInfo S
      → List (BackupInfo S)
      → List (BackupInfo S) × Option ReplicaError
  unfolding backup_delete refresh
  backup_add limits b infos =
      if str_eq b.backup_id ""
      then (infos, some (plain "empty backupID"))
      else let added = (backup_delete b.backup_id infos).0 ++ (b ∷ []) in
        elim (refresh limits added) [ fail e ↦ (added, some e) | ok rest ↦ (rest, none) ]

  -- The loop of `BackupGet`, and `BackupGet`.
  unfoldable pub find_backup : String → List (BackupInfo S) → Option (BackupInfo S)
  find_backup id [] = none
  find_backup id (b ∷ bs) = if str_eq b.backup_id id then some b else find_backup id bs

  unfoldable pub backup_get :
      List (String × ℕ)
      → String
      → List (BackupInfo S)
      → List (BackupInfo S) × Checked (BackupInfo S)
  unfolding refresh find_backup
  backup_get limits id infos =
      if str_eq id "" then (infos, fail (plain "empty backupID")) else elim (refresh limits infos) [
        | fail e ↦ (infos, fail e)
        | ok rest ↦ elim (find_backup id rest) [
          | none ↦ (rest, fail (plain "backup not found"))
          | some b ↦ (rest, ok b)
        ]
      ]

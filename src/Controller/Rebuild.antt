-- ===== src/Controller/Rebuild.antt =====
-- pkg/controller/rebuild.go: `getCurrentAndRWReplica` and `VerifyRebuildReplica`. The disks of a
-- replica come from another process: their names are an argument.
use longhorn_engine.Prelude.{
  String, Bool, true, false, not, Option, none, some, List, [], ◌∷◌, length, ◌==◌, if◌then◌else◌,
  str_eq, ◌&&◌,
}
use longhorn_engine.Prelude.Int.{ℤ, pos, negsuc}
use longhorn_engine.Prelude.Dict.{Dict}
use longhorn_engine.Types.{read_write}
use longhorn_engine.Replicator.{BackendWrapper, is_read_write, is_write_only}
use longhorn_engine.Replicator.Backend.{Backend, Result, ok, fail}
use longhorn_engine.Replicator.Calls
use longhorn_engine.Controller.{Controller, Replica, World, ControlError, message, set_replica_mode}

-- The loop of `getCurrentAndRWReplica`: the last one of each kind.
unfoldable pub find_current_and_rw :
    String → List Replica → Option Replica → Option Replica → Option Replica × Option Replica
find_current_and_rw address [] current rw_replica = (current, rw_replica)
find_current_and_rw address (p ∷ ps) current rw_replica =
    if str_eq p.address address
    then find_current_and_rw address ps (some p) rw_replica
    else if is_read_write p.mode
    then find_current_and_rw address ps current (some p)
    else find_current_and_rw address ps current rw_replica

-- `getCurrentAndRWReplica`
unfoldable pub current_and_rw_replica :
    String → Controller → Option (Replica × Replica) × Option ControlError
unfolding find_current_and_rw
current_and_rw_replica address c =
    let (current, rw_replica) = find_current_and_rw address c.replicas none none in
    elim current [
      | none ↦ (none, some (message "cannot find replica"))
      | some p ↦ elim rw_replica [
        | none ↦ (none, some (message "cannot find any healthy replica"))
        | some q ↦ (some (p, q), none)
      ]
    ]

-- Whether every name of the first list is in the second.
abbrev pub has_name : String → List String → Bool
has_name k [] = false
has_name k (n ∷ ns) = if str_eq n k then true else has_name k ns

unfoldable pub all_named : List String → List String → Bool
all_named [] to = true
all_named (k ∷ ks) to = has_name k to && all_named ks to

abbrev is_minus_one : ℤ → Bool
is_minus_one (pos n) = false
is_minus_one (negsuc n) = n == 0

module _ (iterate : Dict BackendWrapper → Dict BackendWrapper) {S : Type 0} (b : Backend S)
    (disks : String → Result (List String)) where
  -- The copy of the revision counter. An error that is nil stays nil when it is wrapped, so a
  -- counter of -1 ends the call without one; the first part is whether the call goes on.
  unfoldable pub copy_revision_counter :
      String → String → World S → Option (World S × Bool × Option ControlError)
  copy_revision_counter from to w =
      elim (Calls.get_revision_counter b from w.control.backend w.heap) [
        | none ↦ none
        | some (h, fail e) ↦
            some (record w { heap = h }, false, some (message "failed to get revision counter"))
        | some (h, ok counter) ↦ elim (is_minus_one counter) [
          | true ↦ some (record w { heap = h }, false, none)
          | false ↦ elim (Calls.set_revision_counter b to counter w.control.backend h) [
            | none ↦ none
            | some (h', some e) ↦
                some
                  (record w { heap = h' }, false, some (message "failed to set revision counter"))
            | some (h', none) ↦ some (record w { heap = h' }, true, none)
          ]
        ]
      ]

  -- The end of `VerifyRebuildReplica`, from the comparison of the disks on.
  unfoldable pub verify_chain : String → String → World S → Option (World S × Option ControlError)
  verify_chain address from w = elim (disks from) [
    | fail e ↦ some (w, some (message "disks of the healthy replica"))
    | ok from_disks ↦ elim (disks address) [
      | fail e ↦ some (w, some (message "disks of the rebuilt replica"))
      | ok to_disks ↦
          if not (length from_disks == length to_disks)
          then some (w, some (message "disk number is not equal"))
          else if not (all_named from_disks to_disks)
          then some (w, some (message "chain not equal"))
          else let copied =
              if w.control.revision_counter_disabled
              then some (w, true, none)
              else copy_revision_counter from address w in
            elim copied [
              | none ↦ none
              | some (w', false, e) ↦ some (w', e)
              | some (w', true, e) ↦ elim (set_replica_mode iterate b address read_write w') [
                | none ↦ none
                | some w'' ↦ some (w'', none)
              ]
            ]
    ]
  ]

  -- `VerifyRebuildReplica`
  unfoldable pub verify_rebuild_replica : String → World S → Option (World S × Option ControlError)
  unfolding current_and_rw_replica verify_chain
  verify_rebuild_replica address w = elim (current_and_rw_replica address w.control).0 [
    | none ↦ some (w, (current_and_rw_replica address w.control).1)
    | some (replica, healthy) ↦
        if is_read_write replica.mode
        then some (w, none)
        else if not (is_write_only replica.mode)
        then some (w, some (message "invalid mode to check"))
        else verify_chain address healthy.address w
  ]

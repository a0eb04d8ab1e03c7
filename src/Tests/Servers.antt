-- ===== src/Tests/Servers.antt =====
-- The theorems on the server of a replica, at a server whose replica has a head on two snapshots.
use longhorn_engine.Prelude.{
  ℕ, Bool, true, false, Option, none, some, List, [], ◌==◌, if◌then◌else◌, str_eq, ◌≡◌, ◌≢◌, ◌⊎◌,
  ◌↔◌, refl,
}
use longhorn_engine.Prelude.Dict
use longhorn_engine.Types.{ReplicaError, plain}
use longhorn_engine.Types.Errors.{function_error_with_rollback}
use longhorn_engine.DiffDisk.{Checked, ok}
use longhorn_engine.Replica.{Replica}
use longhorn_engine.Replica.Files.{Files, encode_to_file, create_new_head}
use longhorn_engine.Replica.Lifecycle.{revert_disk}
use longhorn_engine.Replica.Server.{
  opened, dirty, rebuilding, no_file, Settings, Server, status, set_rebuilding, ping_response,
  revert,
}
use longhorn_engine.Replica.States.{set_rebuilding_lem, ping_response_lem}
use longhorn_engine.Replica.Revert.{LosesReplica, revert_lem}
use longhorn_engine.Tests.{ram_file}
use longhorn_engine.Tests.Chains.{short_texts, chained}

-- A directory where the first write of the volume's metadata fails: the state says whether it has.
abbrev once_full : Files Bool (List ℕ)
once_full = record {
  stat = λ n w. if str_eq n "volume-snap-b.img" then some false else none;
  remove_all = λ n w. (w, none);
  remove = λ n w. (w, none);
  link = λ a b w. (w, none);
  truncate = λ n k w. (w, none);
  create = λ n w. (w, none);
  encode = λ n c w.
      if str_eq n "volume.meta.tmp"
      then (true, if w then none else some (plain "no space"))
      else (w, none);
  rename = λ a b w. (w, none);
  open_file = λ n b w. (w, ok []);
  head_index = λ n. if str_eq n "volume-head-000.img" then some 0 else none;
  head_name = λ i. if i == 1 then "volume-head-001.img" else "volume-head-000.img";
}

abbrev a_server : Server (List ℕ)
a_server = record {
  replica = some chained;
  sector_size = 4;
  settings = record {
    backing = none;
    revision_counter_disabled = false;
    unmap_mark_disk_chain_removed = false;
    snapshot_max_count = 250;
    snapshot_max_size = 0;
  };
}

abbrev make_same : ℕ → ℕ → Settings → Bool → Bool × Checked (Replica (List ℕ))
make_same size sector settings w = (w, ok chained)

set_rebuilding_lem_example :
    let ((s', w'), e) =
      set_rebuilding once_full ram_file short_texts (λ w. no_file) make_same true a_server true in
    let before = (status once_full ram_file short_texts (λ w. no_file) make_same a_server true).0 in
    let after = (status once_full ram_file short_texts (λ w. no_file) make_same s' w').0 in
    (e ≢ none → s' ≡ a_server)
    × (e ≡ none → true ≡ true → ((before ≡ opened) ⊎ (before ≡ dirty)) × (after ≡ rebuilding))
    × (e ≡ none → true ≡ false → (before ≡ rebuilding) × ((after ≡ opened) ⊎ (after ≡ dirty)))
set_rebuilding_lem_example =
    set_rebuilding_lem once_full ram_file short_texts (λ w. no_file) make_same true a_server true

ping_response_lem_example :
    (ping_response once_full ram_file short_texts (λ w. no_file) make_same a_server true ≡ none)
    ↔ ((r : Replica (List ℕ)) × (a_server.replica ≡ some r) × (r.info.error ≡ ""))
ping_response_lem_example =
    ping_response_lem once_full ram_file short_texts (λ w. no_file) make_same a_server true

revert_lem_example :
    let after : Server (List ℕ) = record a_server { replica = none } in
    let e : Option ReplicaError = none in
    (e ≢ none → after ≡ a_server)
    × (after ≡ record a_server { replica = after.replica })
    × (((e ≡ none) × (after.replica ≡ none))
        ↔ LosesReplica once_full ram_file short_texts
            (λ w. no_file)
            make_same
            "volume-snap-b.img"
            ""
            chained
            false)
unfolding create_new_head encode_to_file Dict.get function_error_with_rollback revert revert_disk
revert_lem_example =
    revert_lem once_full ram_file short_texts (λ w. no_file) make_same "volume-snap-b.img" ""
      a_server (record a_server { replica = none }) chained false true none refl refl

-- ===== src/Replica/Revert.antt =====
-- pkg/replica/server.go and pkg/replica/replica.go: what a server holds after a `Revert`.
use longhorn_engine.Types.{ReplicaError}
use longhorn_engine.Prelude.{
  Option, Bool-cases, Option-cases, inl, inr, ℕ, String, true, false, none, some, ◌≡◌, ◌≢◌, ◌↔◌,
  arith,
}
use longhorn_engine.Types.Errors.{Texts}
use longhorn_engine.DiffDisk.{DiffFile, Checked}
use longhorn_engine.Replica.{Disk, Info, Replica, disk_of}
use longhorn_engine.Replica.Files.{
  Files, encode_to_file, volume_meta, volume_meta_data, create_new_head, NewHead,
}
use longhorn_engine.Replica.Lifecycle.{revert_disk, revert_to}
use longhorn_engine.Replica.Server.{VolumeFile, Settings, Server, revert, reload_replica}
use longhorn_engine.Replica.Undos.{create_new_head-reports}
use longhorn_engine.Prelude.Dict

module _ {W F : Type 0} (fs : Files W F) (io : DiffFile F) (t : Texts)
    (volume_file : W → VolumeFile) (make : ℕ → ℕ → Settings → W → W × Checked (Replica F)) where
  -- The writing of an info as the volume's metadata.
  abbrev pub write_info : Info → Replica F → W → W × Option ReplicaError
  write_info i r w =
      let (w', u, e) = encode_to_file fs t r.read_only (volume_meta i) volume_meta_data w in (w', e)

  -- The info of a replica with a new head.
  abbrev pub reverted : NewHead fs t → Replica F → Info
  reverted h r = record r.info { head = h.disk.name; dirty = true; parent = h.disk.parent }

  -- The checks of a revert pass and its new head is made, the volume's new metadata is not written, and
  -- its old metadata is written again.
  pub record LosesReplica (name created : String) (r : Replica F) (w : W) : Type 0 where
    pub disk : Disk
    pub head : NewHead fs t
    pub world : W
    pub none_yet : Option ReplicaError
    pub there : fs.stat name w ≢ none
    pub known : disk_of name r ≡ some disk
    pub live : disk.removed ≡ false
    pub made :
        create_new_head fs t r.read_only r.info.head name created r.info.size w
        ≡ some (world, some head, none_yet)
    pub unwritten : (write_info (reverted head r) r world).1 ≢ none
    pub written : (write_info r.info r (write_info (reverted head r) r world).0).1 ≡ none

  -- The end of a revert that has no replica and no error.
  reverted_to_nothing :
      (reload : Replica F → W → W × Checked (Replica F)) (h : NewHead fs t) (r : Replica F) (w : W)
      → let (w', made, e) = revert_to fs t reload h r w in
        e ≡ none
        → made ≡ none
        → ((write_info (reverted h r) r w).1 ≢ none)
          × ((write_info r.info r (write_info (reverted h r) r w).0).1 ≡ none)
  unfolding revert_to
  reverted_to_nothing reload h r w = ground arith

  -- A `revertDisk` with neither a replica nor an error.
  revert_disk-LosesReplica :
      (reload : Replica F → W → W × Checked (Replica F)) (name created : String) (r : Replica F)
      (w w' : W)
      → revert_disk fs t reload name created r w ≡ some (w', none, none)
      → LosesReplica name created r w
  unfolding revert_disk
  revert_disk-LosesReplica reload name created r w w' run = elim (Option-cases (fs.stat name w)) [
    | inl gone ↦ absurd (ground (arith, run, gone))
    | inr (dir, there) ↦ elim (Option-cases (Dict.get name r.disk_data)) [
      | inl gone ↦ absurd (ground (arith, run, there, gone))
      | inr (p, known) ↦ elim (Bool-cases (r.disks p).removed) [
        | inl dead ↦ absurd (ground (arith, run, there, known, dead))
        | inr live ↦
            let make_head =
              create_new_head fs t r.read_only r.info.head name created r.info.size w in
            elim (Option-cases make_head) [
              | inl gone ↦ absurd (ground (arith, run, there, known, live, gone))
              | inr ((w₁, none, none), bad) ↦ absurd (
                  create_new_head-reports fs t r.read_only r.info.head name created r.info.size w w₁
                    bad)
              | inr ((w₁, none, some x), bad) ↦
                  absurd (ground (arith, run, there, known, live, bad))
              | inr ((w₁, some head, x), made) ↦
                  let facts =
                    reverted_to_nothing reload head r w₁
                      (ground (arith, run, there, known, live, made))
                      (ground (arith, run, there, known, live, made)) in
                  record {
                    disk = r.disks p;
                    head = head;
                    world = w₁;
                    none_yet = x;
                    there = ground (arith, there);
                    known = ground (arith, known);
                    live = live;
                    made = made;
                    unwritten = facts.0;
                    written = facts.1;
                  }
            ]
      ]
    ]
  ]

  -- A `Revert` of an open server with an error leaves the server as it is. One without an error changes
  -- nothing but the replica, and leaves the server without one exactly if its checks pass, its new head
  -- is made, the volume's new metadata is not written and the old is written again.
  pub revert_lem :
      (name created : String) (s s' : Server F) (r : Replica F) (w w' : W) (e : Option ReplicaError)
      → s.replica ≡ some r
      → revert fs io t volume_file make name created s w ≡ some ((s', w'), e)
      → (e ≢ none → s' ≡ s)
        × (s' ≡ record s { replica = s'.replica })
        × (((e ≡ none) × (s'.replica ≡ none)) ↔ LosesReplica name created r w)
  unfolding revert revert_disk revert_to
  revert_lem name created s s' r w w' e here run = (
    ground (arith, run, here),
    ground (arith, run, here),
    (
      λ h.
          revert_disk-LosesReplica (reload_replica fs io t volume_file make s) name created r w w'
            (ground (arith, run, here, h)),
      λ k. ground (arith, run, here, k.there, k.known, k.live, k.made, k.unwritten, k.written),
    ),
  )

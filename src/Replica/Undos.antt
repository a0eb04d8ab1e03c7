-- ===== src/Replica/Undos.antt =====
-- pkg/replica/replica.go: what running the rollback functions does to the memory.
use longhorn_engine.Prelude.{
  ℕ, String, Bool, true, false, Option, none, some, List, [], ◌∷◌, ◌++◌, ◌≡◌, ◌≢◌, refl, ap, arith,
  inl, inr, ◌⊎◌,
}
use longhorn_engine.Prelude.Dict
use longhorn_engine.Prelude.Dict.{Dict}
use longhorn_engine.Types.{ReplicaError}
use longhorn_engine.Types.Errors.{Texts, combine_errors, function_error_with_rollback}
use longhorn_engine.DiffDisk.{Checked, ok, fail}
use longhorn_engine.Replica.{Disk, Replica}
use longhorn_engine.Replica.Files.{
  Files, Content, disk_meta, Undo, nothing, remove_tmp, undo_head, undo_link, undo_meta, undo_maps,
  undo, undo_all, NewHead, encode_failed, encode_to_file, head_failed, create_new_head, link_disk,
  next_file, meta_name,
}

-- Whether a rollback function leaves the memory alone.
unfoldable pub on_files : {F : Type 0} → Undo F → Bool
on_files (undo_head f u n) = on_files u
on_files (undo_meta u) = on_files u
on_files (undo_maps h n) = false
on_files nothing = true
on_files (remove_tmp n) = true
on_files (undo_link n) = true

pub Checked-cases :
    {A : Type 0} (c : Checked A) → ((e : ReplicaError) × (c ≡ fail e)) ⊎ ((a : A) × (c ≡ ok a))
Checked-cases (fail e) = inl (e, refl)
Checked-cases (ok a) = inr (a, refl)

module _ {W F : Type 0} (fs : Files W F) (t : Texts) where
  undo-on_files :
      (u : Undo F) (r : Replica F) (w : W) → on_files u ≡ true → (undo fs t u (r, w)).0.0 ≡ r
  unfolding undo on_files
  undo-on_files nothing r w h = refl
  undo-on_files (remove_tmp n) r w h = refl
  undo-on_files (undo_head f nothing n) r w h = refl
  undo-on_files (undo_head f (remove_tmp m) n) r w h = refl
  undo-on_files (undo_head f (undo_head g u m) n) r w h = undo-on_files (undo_head g u m) r w h
  undo-on_files (undo_head f (undo_link m) n) r w h = refl
  undo-on_files (undo_head f (undo_meta u) n) r w h = undo-on_files (undo_meta u) r w h
  undo-on_files (undo_head f (undo_maps a b) n) r w h = cc
  undo-on_files (undo_link n) r w h = refl
  undo-on_files (undo_meta u) r w h = undo-on_files u r _ h
  undo-on_files (undo_maps a b) r w h = cc

  pub encode_to_file-on_files :
      (o : Bool) (c : Content) (n : String) (w : W)
      → on_files (encode_to_file fs t o c n w).1 ≡ true
  unfolding encode_to_file encode_failed on_files
  encode_to_file-on_files o c n w = ground arith

  pub link_disk-on_files : (a b : String) (w : W) → on_files (link_disk fs t a b w).1 ≡ true
  unfolding link_disk on_files
  link_disk-on_files a b w = ground arith

  pub create_new_head-on_files :
      (o : Bool) (a b c : String) (n : ℕ) (w w' : W) (h : NewHead fs t) (x : Option ReplicaError)
      → create_new_head fs t o a b c n w ≡ some (w', some h, x)
      → (on_files h.rollback ≡ true) × (next_file fs t a ≡ ok h.disk.name)
  unfolding create_new_head head_failed on_files
  create_new_head-on_files o a b c n w w' h x e = elim (Checked-cases (next_file fs t a)) [
    | inl (y, bad) ↦ ground (arith, bad)
    | inr (name, good) ↦
        let w₁ = (fs.open_file name true w).0 in
        let w₂ = (fs.truncate name n w₁).0 in
        let d : Disk = record {
          name = name;
          parent = b;
          removed = false;
          user_created = false;
          created = c;
          labels = [];
        } in
        ground (arith, good, encode_to_file-on_files o (disk_meta d) (meta_name name) w₂)
  ]

  -- Without a head there is an error.
  pub create_new_head-reports :
      (o : Bool) (a b c : String) (n : ℕ) (w w' : W)
      → create_new_head fs t o a b c n w ≢ some (w', none, none)
  unfolding create_new_head head_failed function_error_with_rollback
  create_new_head-reports o a b c n w w' e = elim (Checked-cases (next_file fs t a)) [
    | inl (y, bad) ↦ absurd (ground (arith, e, bad))
    | inr (name, good) ↦ absurd (ground (arith, e, good))
  ]

  step_undo :
      (u : Undo F) (us : List (Undo F)) (e : Option ReplicaError) (r : Replica F) (w : W)
      → on_files u ≡ true
      → (e' : Option ReplicaError) × (w' : W) × (undo_all fs t (u ∷ us) e (r, w)
          ≡ undo_all fs t us e' (r, w'))
  unfolding undo_all on_files
  step_undo nothing us e r w h = (e, w, refl)
  step_undo (remove_tmp n) us e r w h = (_, _, refl)
  step_undo (undo_head f u n) us e r w h =
      let (s', x) = undo fs t (undo_head f u n) (r, w) in
      let e' = combine_errors t (e ∷ x ∷ []) in
      (e', s'.1, ap (λ r'. undo_all fs t us e' (r', s'.1)) (undo-on_files (undo_head f u n) r w h))
  step_undo (undo_link n) us e r w h = (_, _, refl)
  step_undo (undo_meta u) us e r w h =
      let (s', x) = undo fs t (undo_meta u) (r, w) in
      let e' = combine_errors t (e ∷ x ∷ []) in
      (e', s'.1, ap (λ r'. undo_all fs t us e' (r', s'.1)) (undo-on_files (undo_meta u) r w h))
  step_undo (undo_maps a b) us e r w h = absurd (ground (arith, h))

  abbrev pub AllOnFiles : List (Undo F) → Type 0
  AllOnFiles [] = Unit {0}
  AllOnFiles (u ∷ us) = (on_files u ≡ true) × AllOnFiles us

  pub undo_all-on_files :
      (us : List (Undo F)) (e : Option ReplicaError) (r : Replica F) (w : W)
      → AllOnFiles us
      → (undo_all fs t us e (r, w)).0.0 ≡ r
  unfolding undo_all
  undo_all-on_files [] e r w h = refl
  undo_all-on_files (u ∷ us) e r w h =
      let (e', w', same) = step_undo u us e r w h.0 in rw same (undo_all-on_files us e' r w' h.1)

  -- The maps without a head and a snapshot.
  abbrev pub without : String → String → Replica F → Replica F
  without head snapshot r = record r {
    disk_data = Dict.delete snapshot (Dict.delete head r.disk_data);
    disk_children_map = Dict.delete snapshot r.disk_children_map;
  }

  pub undo_all-maps :
      (us : List (Undo F)) (a b : String) (e : Option ReplicaError) (r : Replica F) (w : W)
      → AllOnFiles us
      → (undo_all fs t (us ++ (undo_maps a b ∷ [])) e (r, w)).0.0 ≡ without a b r
  unfolding undo_all undo
  undo_all-maps [] a b e r w h = refl
  undo_all-maps (u ∷ us) a b e r w h =
      let (e', w', same) = step_undo u (us ++ (undo_maps a b ∷ [])) e r w h.0 in
      rw same (undo_all-maps us a b e' r w' h.1)

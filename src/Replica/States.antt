-- ===== src/Replica/States.antt =====
-- pkg/replica/server.go: the states of a server.
use longhorn_engine.Prelude.{
  ℕ, Bool, true, false, none, some, ◌≡◌, ◌≢◌, ◌⊎◌, ◌↔◌, sym, ap, ◌∙◌, arith, Option-cases, inl, inr,
  str_eq_iff,
}
use longhorn_engine.Types.Errors.{Texts}
use longhorn_engine.DiffDisk.{DiffFile, Checked}
use longhorn_engine.Replica.{Replica}
use longhorn_engine.Replica.Files.{Files}
use longhorn_engine.Replica.Lifecycle
use longhorn_engine.Replica.Server.{
  opened, dirty, rebuilding, VolumeFile, Settings, Server, state_of, status, set_rebuilding,
  ping_response,
}

module _ {W F : Type 0} (fs : Files W F) (io : DiffFile F) (t : Texts)
    (volume_file : W → VolumeFile) (make : ℕ → ℕ → Settings → W → W × Checked (Replica F)) where
  -- A `SetRebuilding` that fails leaves the server as it is. One that succeeds moves it to rebuilding,
  -- from open or dirty, or from rebuilding to open or dirty.
  pub set_rebuilding_lem :
      (on : Bool) (s : Server F) (w : W)
      → let ((s', w'), e) = set_rebuilding fs io t volume_file make on s w in
        let before = (status fs io t volume_file make s w).0 in
        let after = (status fs io t volume_file make s' w').0 in
        (e ≢ none → s' ≡ s)
        × (e ≡ none → on ≡ true → ((before ≡ opened) ⊎ (before ≡ dirty)) × (after ≡ rebuilding))
        × (e ≡ none → on ≡ false → (before ≡ rebuilding) × ((after ≡ opened) ⊎ (after ≡ dirty)))
  unfolding set_rebuilding status state_of Lifecycle.set_rebuilding
  set_rebuilding_lem on s w = ground arith

  -- A ping is answered without an error exactly by a server with a replica whose info has no error.
  pub ping_response_lem :
      (s : Server F) (w : W)
      → (ping_response fs io t volume_file make s w ≡ none)
        ↔ ((r : Replica F) × (s.replica ≡ some r) × (r.info.error ≡ ""))
  unfolding ping_response status state_of
  ping_response_lem s w = elim (Option-cases s.replica) [
    | inl gone ↦ (λ h. absurd (ground (arith, gone, h)), λ h. absurd (ground (arith, gone, h.1)))
    | inr (r, here) ↦ (
      λ h. (r, here, ground (arith, here, h, str_eq_iff r.info.error "")),
      λ h.
          let same : h.0 ≡ r = ground (arith, h.1, here) in
          let clean : r.info.error ≡ "" = ap (λ z. z.info.error) (sym same) ∙ h.2 in
          ground (arith, here, clean, str_eq_iff r.info.error ""),
    )
  ]

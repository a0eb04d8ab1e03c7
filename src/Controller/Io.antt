-- ===== src/Controller/Io.antt =====
-- pkg/controller/control.go: `WriteAt`, `ReadAt` and `UnmapAt`. An offset is not negative here: a
-- negative one is refused as one past the end is. `order` is the order in which the goroutines of
-- the fan-out take effect.
use longhorn_engine.Prelude.{
  ℕ, ◌+◌, ◌-◌, ◌*◌, ◌/◌, ◌%◌, ◌^◌, ◌||◌, ◌&&◌, ◌==◌, Bool, true, false, Option, none, some, List,
  length, replicate, ltb, if◌then◌else◌,
}
use longhorn_engine.Prelude.Dict.{Dict}
use longhorn_engine.Types.{CallError}
use longhorn_engine.Replicator.{BackendWrapper}
use longhorn_engine.Replicator.Backend.{Backend}
use longhorn_engine.Replicator.Io
use longhorn_engine.Replicator.Io.{IoError}
use longhorn_engine.DiffDisk.Read.{splice}
use longhorn_engine.Controller.{World, ControlError, from_backend, message, has_wo_replica}
use longhorn_engine.Controller.Errors.{handle_error}

-- diskutil.VolumeSectorSize (pkg/util/disk)
abbrev pub volume_sector_size : ℕ
volume_sector_size = 4096

-- `off < 0 || off+int64(l) > c.size`; the sum is an int64, and a sum past 2^63 is negative.
abbrev pub beyond : ℕ → ℕ → ℕ → Bool
beyond off l size = ltb size (off + l) && ltb (off + l) (2 ^ 63)

-- The sectors that cover a range.
abbrev pub sectors_start : ℕ → ℕ
sectors_start off = off / volume_sector_size * volume_sector_size

abbrev pub sectors_end : ℕ → ℕ
sectors_end stop =
    if stop % volume_sector_size == 0
    then stop
    else (stop / volume_sector_size + 1) * volume_sector_size

abbrev pub is_aligned : ℕ → ℕ → Bool
is_aligned off l = l == 0 || (off % volume_sector_size == 0 && l % volume_sector_size == 0)

-- An error of the replicator as one of the controller.
abbrev pub lift_error : Option IoError → Option ControlError
lift_error none = none
lift_error (some e) = some (from_backend e)

module _ {S : Type 0} (b : Backend S) where
  -- `writeInNormalMode`
  unfoldable pub write_in_normal_mode :
      List ℕ → ℕ → List ℕ → World S → Option (World S × ℕ × Option ControlError)
  write_in_normal_mode buf off order w =
      elim (Io.write_at b buf off order w.control.backend w.heap) [
        | none ↦ none
        | some (h, n, e) ↦ some (record w { heap = h }, n, lift_error e)
      ]

  -- The count of bytes of the caller's buffer that `n` written bytes of whole sectors cover.
  abbrev pub covered : ℕ → ℕ → ℕ → ℕ
  covered n cut len = if ltb n cut then 0 else if ltb (n - cut) len then n - cut else len

  -- `writeInWOMode`. The error of the read is wrapped, so its type is lost.
  unfoldable pub write_in_wo_mode :
      List ℕ → ℕ → List ℕ → World S → Option (World S × ℕ × Option ControlError)
  write_in_wo_mode buf off order w = elim (is_aligned off (length buf)) [
    | true ↦ write_in_normal_mode buf off order w
    | false ↦
        let start = sectors_start off in
        let stop = sectors_end (off + length buf) in
        elim (Io.read_at b (replicate (stop - start) 0) start w.control.backend w.heap) [
          | none ↦ none
          | some (r, h, read_buf, n, some e) ↦ some (
            record { control = record w.control { backend = r }; heap = h },
            0,
            some (message "failed to retrieve aligned sectors from RW replicas"),
          )
          | some (r, h, read_buf, n, none) ↦
              let w' : World S = record { control = record w.control { backend = r }; heap = h } in
              let cut = off % volume_sector_size in
              elim (write_in_normal_mode (splice read_buf cut buf) start order w') [
                | none ↦ none
                | some (w'', m, none) ↦ some (w'', length buf, none)
                | some (w'', m, some e) ↦ some (w'', covered m cut (length buf), some e)
              ]
        ]
  ]

  module _ (iterate : Dict BackendWrapper → Dict BackendWrapper) (exists : CallError → Bool) where
    -- What `WriteAt`, `ReadAt` and `UnmapAt` do with an error, under the lock for writing.
    abbrev finish :
        Option (World S × ℕ × Option ControlError) → Option (World S × ℕ × Option ControlError)
    finish none = none
    finish (some (w, n, none)) = some (w, n, none)
    finish (some (w, n, some e)) = elim (handle_error iterate exists b (some e) w) [
      | none ↦ none
      | some (w', e') ↦ some (w', n, e')
    ]

    -- `WriteAt`
    unfoldable pub write_at :
        List ℕ → ℕ → List ℕ → World S → Option (World S × ℕ × Option ControlError)
    write_at buf off order w =
        if beyond off (length buf) w.control.size
        then some (w, 0, some (message "EOF"))
        else finish (
            if has_wo_replica w.control.replicas
            then write_in_wo_mode buf off order w
            else write_in_normal_mode buf off order w)

    -- `ReadAt`, with the buffer afterwards.
    unfoldable pub read_at :
        List ℕ → ℕ → World S → Option (World S × List ℕ × ℕ × Option ControlError)
    read_at buf off w =
        if beyond off (length buf) w.control.size
        then some (w, buf, 0, some (message "EOF"))
        else elim (Io.read_at b buf off w.control.backend w.heap) [
          | none ↦ none
          | some (r, h, buf', n, e) ↦
              let w' : World S = record { control = record w.control { backend = r }; heap = h } in
              elim (finish (some (w', n, lift_error e))) [
                | none ↦ none
                | some (w'', m, e') ↦ some (w'', buf', m, e')
              ]
        ]

    -- `UnmapAt`
    unfoldable pub unmap_at : ℕ → ℕ → List ℕ → World S → Option (World S × ℕ × Option ControlError)
    unmap_at len off order w =
        if beyond off len w.control.size
        then some (w, 0, some (message "EOF"))
        else if has_wo_replica w.control.replicas
        then some (w, 0, none)
        else if w.control.is_expanding
        then some (w, 0, some (message "cannot unmap while expansion is in progress"))
        else elim (Io.unmap_at b len off order w.control.backend w.heap) [
          | none ↦ none
          | some (h, n, e) ↦ finish (some (record w { heap = h }, n, lift_error e))
        ]

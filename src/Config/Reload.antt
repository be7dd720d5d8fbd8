-- ===== src/Config/Reload.antt =====
-- A reload makes the configuration of the file the active one.
use cpu_process_exporter.Base.{
  ℕ, ◌≡◌, refl, inl, inr, true, false, ◌&&◌, some, is_empty, int_beq_iff, ◌==◌, int_beq, Bool-cases,
  arith,
}
use cpu_process_exporter.Config.{Config}
use cpu_process_exporter.Config.Equal.{equal, equal_iff}
use cpu_process_exporter.Config.Load.{ok, load}
use cpu_process_exporter.Config.Watcher.{
  FileInfo, Watcher, Schedule, Seen, hangup, tick, install, current, same_file, reload_at, reload,
  step,
}
use cpu_process_exporter.Regexp.{Regexp}

module _ {R M : Type 0} (rx : Regexp R M) where
  install-current :
      (w : Watcher) (fi : FileInfo) (sch : ℕ → Schedule) (c : Config)
      → (current (install w fi sch (ok c)) ≡ some c)
        × (same_file (install w fi sch (ok c)) fi ≡ true)
  unfolding install current
  install-current w fi sch c =
      let same : (fi.mod_time == fi.mod_time && int_beq fi.size fi.size) ≡ true =
        ground (arith, (int_beq_iff fi.size fi.size).1 refl) in
      elim (Bool-cases (equal w.cur (some c))) [
        | inl old ↦ rw old ((equal_iff w.cur (some c)).0 old, same)
        | inr other ↦ rw other (refl, same)
      ]

  reload-same :
      (w : Watcher) (fi : FileInfo) (seen : Seen)
      → seen.info ≡ some fi
      → same_file w fi ≡ true
      → reload rx w false seen ≡ w
  unfolding reload reload_at
  reload-same w fi seen stat same = elim (Bool-cases (is_empty w.path)) [
    | inl empty ↦ rw empty refl
    | inr other ↦ rw (other, stat, same) refl
  ]

  hangup-installs :
      (w : Watcher) (fi : FileInfo) (seen : Seen) (c : Config)
      → is_empty w.path ≡ false
      → seen.info ≡ some fi
      → load rx seen.files w.path ≡ ok c
      → reload rx w true seen ≡ install w fi seen.schedule (ok c)
  unfolding reload reload_at
  hangup-installs w fi seen c path stat loads = elim (Bool-cases (same_file w fi)) [
    | inl same ↦ rw (path, stat, same, loads) refl
    | inr other ↦ rw (path, stat, other, loads) refl
  ]

  -- After a hangup, where the file can be examined and loads, the configuration of the file is the
  -- active one, also when the file looked unchanged; and as long as the file looks the same, a tick
  -- changes nothing.
  pub hangup-current :
      (w : Watcher) (fi : FileInfo) (seen later : Seen) (c : Config)
      → is_empty w.path ≡ false
      → seen.info ≡ some fi
      → load rx seen.files w.path ≡ ok c
      → later.info ≡ some fi
      → (current (step rx w (hangup seen)) ≡ some c)
        × (step rx (step rx w (hangup seen)) (tick later) ≡ step rx w (hangup seen))
  unfolding step
  hangup-current w fi seen later c path stat loads again =
      let (now, same) = install-current w fi seen.schedule c in
      rw (hangup-installs w fi seen c path stat loads)
        (now, reload-same (install w fi seen.schedule (ok c)) fi later again same)

-- ===== src/Config/Usable.antt =====
-- What the rest of the program needs of a configuration.
use cpu_process_exporter.Base.{◌≡◌, Bytes}
use cpu_process_exporter.Config.{Config}
use cpu_process_exporter.Config.Accepted.{IsAccepted, load-IsAccepted}
use cpu_process_exporter.Config.Bounds.{IsWithin, load-IsWithin}
use cpu_process_exporter.Config.Builds.{accepted_builds}
use cpu_process_exporter.Config.Load.{Files, ok, load}
use cpu_process_exporter.Filter
use cpu_process_exporter.Filter.{Filter}
use cpu_process_exporter.Namer
use cpu_process_exporter.Namer.{Namer}
use cpu_process_exporter.Regexp.{Regexp}

-- Validate accepts it, the scanner's figures are within their bounds, and the filter and the namer are
-- built from it without an error.
pub record IsUsable {R M : Type 0} (rx : Regexp R M) (c : Config) : Type 0 where
  pub accepted : IsAccepted rx c
  pub within : IsWithin c.scan
  pub filter_built : (f : Filter R) × (Filter.new rx c.filter ≡ Filter.ok f)
  pub namer_built : (n : Namer R) × (Namer.new rx c.naming ≡ Namer.ok n)

-- Of a configuration that Load accepts, Validate reports no problem and normalise changes nothing; a
-- batch has 1 to 10000 processes and the scanner takes it as it is, a sleep lasts 0 to 1 seconds and an
-- interval at least one, and the sleeps of a scan of 2000 processes fit into the interval; and both the
-- filter and the namer are built from it without an error.
pub load-IsUsable :
    {R M : Type 0} (rx : Regexp R M) (fs : Files) (path : Bytes) (c : Config)
    → load rx fs path ≡ ok c
    → IsUsable rx c
load-IsUsable rx fs path c h =
    let (filter_built, namer_built) = accepted_builds rx fs path c h in
    record {
      accepted = load-IsAccepted rx fs path c h;
      within = load-IsWithin rx fs path c h;
      filter_built = filter_built;
      namer_built = namer_built;
    }

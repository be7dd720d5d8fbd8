-- ===== src/Procfs/Probe.antt =====
-- What internal/procfs/system.go and smaps.go probe once at start. strconv.ParseFloat is a parameter.
use cpu_process_exporter.Base.{
  ℕ, ◌<◌, ◌≡◌, refl, sym, ap, ◌∙◌, Bool, true, ◌&&◌, List, [], ◌∷◌, Option, none, some, Bytes,
  codes, has_prefix, is_empty, drop, if◌then◌else◌, arith,
}
use cpu_process_exporter.Base.Int.{ℤ, pos, negsuc, ltb_ℤ}
use cpu_process_exporter.Float.{Float64}
use cpu_process_exporter.Procfs.Error.{Error, Result, ok, err, ◌>>=◌, malformed}
use cpu_process_exporter.Procfs.World.{Lines}
use cpu_process_exporter.Procfs.Number.{atoi, trim_space}
use cpu_process_exporter.Procfs.System.{System, ticks_to_seconds}

-- The answers of the machine: the output of `getconf CLK_TCK`, the page size, the lines of the stat
-- file below the path, and whether os.Stat finds smaps_rollup there.
pub record Machine (F : Type 0) : Type 0 where
  pub getconf : Option Bytes
  pub page_size : ℕ
  pub stat_lines : Bytes → Result Lines
  pub has_rollup : Bytes → Bool
  pub parse_float : Bytes → Option F

abbrev ticks_of : Option Bytes → ℤ
ticks_of none = pos 100
ticks_of (some out) =
    let (n, fine) = atoi (trim_space out) in if fine && ltb_ℤ (pos 0) n then n else pos 100

unfoldable pub clock_ticks : {F : Type 0} → Machine F → ℤ
clock_ticks m = ticks_of m.getconf

unfoldable pub have_smaps_rollup : {F : Type 0} → Machine F → Bytes → Bool
have_smaps_rollup m path = m.has_rollup path

abbrev parsed_time : {F : Type 0} → Option F → Result F
parsed_time none = err malformed
parsed_time (some v) = ok v

-- What follows the loop of bootTime: the error of the scanner, or that the key is missing.
abbrev missing : {F : Type 0} → Option Error → Result F
missing none = err malformed
missing (some e) = err e

-- The loop of bootTime: the first line with the key decides.
unfoldable pub boot_loop : {F : Type 0} → Machine F → List Bytes → Option Error → Result F
boot_loop m [] scan_err = missing scan_err
boot_loop m (line ∷ rest) scan_err =
    if has_prefix line (codes "btime ")
    then parsed_time (m.parse_float (trim_space (drop 6 line)))
    else boot_loop m rest scan_err

unfoldable pub boot_time : {F : Type 0} → Machine F → Bytes → Result F
unfolding boot_loop
boot_time m path = m.stat_lines path >>= (λ l. boot_loop m l.lines l.scan_err)

abbrev pub or_proc : Bytes → Bytes
or_proc path = if is_empty path then codes "/proc" else path

abbrev system_of : {F : Type 0} → Machine F → Bytes → F → System F
system_of m path bt = record {
  clock_ticks = clock_ticks m;
  page_size = m.page_size;
  boot_time = bt;
  smaps_rollup = have_smaps_rollup m path;
}

unfoldable pub new_system : {F : Type 0} → Machine F → Bytes → Result (System F)
unfolding clock_ticks boot_time have_smaps_rollup
new_system m path = boot_time m (or_proc path) >>= (λ bt. ok (system_of m (or_proc path) bt))

ticks_of_pos : (o : Option Bytes) → ltb_ℤ (pos 0) (ticks_of o) ≡ true
ticks_of_pos none = refl
ticks_of_pos (some out) = ground arith

positive : (n : ℤ) → ltb_ℤ (pos 0) n ≡ true → (k : ℕ) × (0 < k) × (n ≡ pos k)
positive (pos k) h = (k, ground arith, refl)
positive (negsuc k) h = absurd (ground arith)

module _ {F : Type 0} (fl : Float64 F) where
  built-ticks :
      (m : Machine F) (path : Bytes) (bt : Result F) (sys : System F)
      → (bt >>= (λ t. ok (system_of m path t))) ≡ ok sys
      → sys.clock_ticks ≡ ticks_of m.getconf
  unfolding clock_ticks
  built-ticks m path (ok t) sys h = ap (λ r. clock_of r sys) (sym h)
    where
      clock_of : Result (System F) → System F → ℤ
      clock_of (ok s) other = s.clock_ticks
      clock_of (err e) other = other.clock_ticks
  built-ticks m path (err e) sys h = cc

  -- The tick rate of a System that NewSystem returns is positive, so that TicksToSeconds divides by it.
  pub new_system-ticks :
      (m : Machine F) (path : Bytes) (sys : System F) (ticks : ℕ)
      → new_system m path ≡ ok sys
      → (k : ℕ) × (0 < k)
        × (sys.clock_ticks ≡ pos k)
        × (ticks_to_seconds fl sys ticks ≡ fl.div_f (fl.of_nat ticks) (fl.of_nat k))
  unfolding new_system ticks_to_seconds
  new_system-ticks m path sys ticks h =
      let is = built-ticks m (or_proc path) (boot_time m (or_proc path)) sys h in
      let (k, large, same) = positive (ticks_of m.getconf) (ticks_of_pos m.getconf) in
      (k, large, is ∙ same, ground (arith, is ∙ same))

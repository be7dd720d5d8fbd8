-- ===== src/Procfs/System.antt =====
-- internal/procfs/system.go: the constants of the machine, and the conversions by them. The page size
-- is that of os.Getpagesize, a positive number.
use cpu_process_exporter.Base.{ℕ, Bool, if◌then◌else◌, mul64}
use cpu_process_exporter.Base.Int.{ℤ, pos, pos_part, leb_ℤ}
use cpu_process_exporter.Float.{Float64}

pub record System (F : Type 0) : Type 0 where
  pub clock_ticks : ℤ
  pub page_size : ℕ
  pub boot_time : F
  pub smaps_rollup : Bool

module _ {F : Type 0} (fl : Float64 F) where
  unfoldable pub ticks_to_seconds : System F → ℕ → F
  ticks_to_seconds s ticks =
      if leb_ℤ s.clock_ticks (pos 0)
      then fl.zero_f
      else fl.div_f (fl.of_nat ticks) (fl.of_nat (pos_part s.clock_ticks))

  unfoldable pub start_time_unix : System F → ℕ → F
  unfolding ticks_to_seconds
  start_time_unix s start_ticks = fl.add_f s.boot_time (ticks_to_seconds s start_ticks)

unfoldable pub pages_to_bytes : {F : Type 0} → System F → ℕ → ℕ
pages_to_bytes s pages = mul64 pages s.page_size

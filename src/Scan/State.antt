-- ===== src/Scan/State.antt =====
-- The types of internal/scan/scan.go, and the steps of readProcess as a monad: a step works on the
-- scanner's state and the result under construction, and ends with a value, or with none where
-- readProcess returns nil.
use cpu_process_exporter.Base.{
  ℕ, suc, Bool, List, Option, none, some, Bytes, lookup, insert, bytes_eq,
}
use cpu_process_exporter.Base.Int.{ℤ}
use cpu_process_exporter.Config.{Config}
use cpu_process_exporter.Float.{Float64}
use cpu_process_exporter.Filter.{Filter}
use cpu_process_exporter.Namer.{Namer}
use cpu_process_exporter.Regexp.{Regexp}
use cpu_process_exporter.Procfs.System.{System}
use cpu_process_exporter.Procfs.Users.{UserCache}
use cpu_process_exporter.Procfs.World.{World}
use cpu_process_exporter.StateMap.{StateMap}

pub record Process (F : Type 0) : Type 0 where
  pub pid : ℕ
  pub ppid : ℤ
  pub comm : Bytes
  pub name : Bytes
  pub user : Bytes
  pub uid : ℕ
  pub state : ℕ
  pub start_ticks : ℕ
  pub start_unix : F
  pub rss_bytes : ℕ
  pub vsize_bytes : ℕ
  pub shared_bytes : ℕ
  pub data_bytes : ℕ
  pub swap_bytes : ℕ
  pub threads : ℤ
  pub open_fds : ℤ
  pub max_fds : ℤ
  pub fd_ratio : F
  pub pss_bytes : ℕ
  pub swap_pss_bytes : ℕ
  pub d_utime_ticks : ℕ
  pub d_stime_ticks : ℕ
  pub d_minor_faults : ℕ
  pub d_major_faults : ℕ
  pub d_vol_ctx_sw : ℕ
  pub d_invol_ctx_sw : ℕ
  pub d_read_bytes : ℕ
  pub d_write_bytes : ℕ
  pub have_deltas : Bool
  pub have_io : Bool
  pub have_fds : Bool
  pub have_status : Bool
  pub have_pss : Bool

abbrev pub ReadErrs : Type 0
ReadErrs = List (Bytes × ℕ)

abbrev pub or_zero : Option ℕ → ℕ
or_zero none = 0
or_zero (some n) = n

-- `m[k]` and `m[k]++` on a map of counts.
abbrev pub errs_of : Bytes → ReadErrs → ℕ
errs_of file m = or_zero (lookup file m)

unfoldable pub add_err : Bytes → ReadErrs → ReadErrs
add_err file m = insert file (suc (errs_of file m)) m

-- The fields of a Result that the walk fills. Each count is at most the number of processes listed.
pub record Tally (F : Type 0) : Type 0 where
  pub procs : List (Process F)
  pub scanned : ℕ
  pub ignored : ℕ
  pub vanished : ℕ
  pub denied : ℕ
  pub read_errs : ReadErrs

-- What readProcess mutates: the state map, the cache of user names, and the result.
pub record St (F : Type 0) : Type 0 where
  pub states : StateMap F
  pub users : UserCache
  pub res : Tally F

-- What readProcess reads: its arguments, the scanner's dependencies, and the operating system.
-- `lookup_id` is os/user's LookupId.
pub record Env (F R M : Type 0) : Type 0 where
  pub float : Float64 F
  pub regexp : Regexp R M
  pub config : Config
  pub filter : Filter R
  pub namer : Namer R
  pub system : System F
  pub lookup_id : Bytes → Option Bytes
  pub world : World
  pub do_fds : Bool
  pub do_smaps : Bool

-- A step of readProcess.
abbrev pub Step : Type 0 → Type 0 → Type 0
Step F A = St F → Option A × St F

module _ {F A B : Type 0} where
  abbrev pub continue : Option A → (A → Step F B) → Step F B
  continue none f s = (none, s)
  continue (some a) f s = f a s

  infixl 5 ◌>>=◌
  unfoldable pub ◌>>=◌ : Step F A → (A → Step F B) → Step F B
  ◌>>=◌ m f s = let (o, s') = m s in continue o f s'

module _ {F A : Type 0} where
  abbrev pub pure : A → Step F A
  pure a s = (some a, s)

  -- `res.X++; return nil`
  abbrev pub stop : (Tally F → Tally F) → Step F A
  stop f s = (none, record s { res = f s.res })

  -- `res.ReadErrs[file]++`, and on with a value.
  abbrev pub note : Bytes → A → Step F A
  note file a s =
      (some a, record s { res = record (s.res) { read_errs = add_err file s.res.read_errs } })

module _ {F : Type 0} where
  abbrev pub count_vanished : Tally F → Tally F
  count_vanished r = record r { vanished = suc r.vanished }

  abbrev pub count_denied : Tally F → Tally F
  count_denied r = record r { denied = suc r.denied }

  abbrev pub count_ignored : Tally F → Tally F
  count_ignored r = record r { ignored = suc r.ignored }

  abbrev pub count_err : Bytes → Tally F → Tally F
  count_err file r = record r { read_errs = add_err file r.read_errs }

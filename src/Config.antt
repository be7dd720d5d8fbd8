-- ===== src/Config.antt =====
-- internal/config: the configuration. Here are the records of config.go; the children have what is done
-- with them. A list of a FilterConfig or of the rules is nil where the operator did not mention it: none.
-- A Duration is its nanoseconds, an int64.
pub mod Equal
pub mod Defaults
pub mod Durations
pub mod Load
pub mod Accepted
pub mod Builds
pub mod Bounds
pub mod Shipped
pub mod Usable
pub mod Watcher
pub mod Delivery
pub mod Reload
use cpu_process_exporter.Base.{Bool, ◌||◌, not, List, Option, none, some, [], ◌∷◌, Bytes}
use cpu_process_exporter.Base.Int.{ℤ}

pub record ScanConfig : Type 0 where
  pub interval : ℤ
  pub batch_size : ℤ
  pub batch_sleep : ℤ
  pub fd_scan_every : ℤ
  pub read_smaps : Bool
  pub smaps_scan_every : ℤ
  pub read_io : Bool
  pub read_status : Bool
  pub cache_cmdline : Bool
  pub group_retention : ℤ
  pub proc_path : Bytes

pub record FilterConfig : Type 0 where
  pub ignore_kernel_threads : Bool
  pub ignore_comm : Option (List Bytes)
  pub ignore_comm_prefix : Option (List Bytes)
  pub ignore_comm_regex : Option (List Bytes)
  pub ignore_cmdline_regex : Option (List Bytes)
  pub ignore_users : Option (List Bytes)
  pub include_only : Option (List Bytes)

-- A nil slice is read as an empty one by len and range.
abbrev pub items {ℓ} : {A : Type ℓ} → Option (List A) → List A
items none = []
items (some xs) = xs

abbrev pub is_nil {ℓ} : {A : Type ℓ} → List A → Bool
is_nil [] = Bool.true
is_nil (x ∷ xs) = Bool.false

unfoldable pub needs_cmdline : FilterConfig → Bool
needs_cmdline f =
    not (is_nil (items f.ignore_cmdline_regex))
    || f.ignore_kernel_threads
    || not (is_nil (items f.include_only))

pub record NamingRule : Type 0 where
  pub match_comm : Bytes
  pub match_comm_prefix : Bytes
  pub match_comm_regex : Bytes
  pub match_exe_regex : Bytes
  pub from : Bytes
  pub regex : Bytes
  pub name : Bytes

pub record NamingConfig : Type 0 where
  pub fallback : Bytes
  pub resolve_users : Bool
  pub rules : Option (List NamingRule)

pub record ServerConfig : Type 0 where
  pub listen : Bytes
  pub metrics_path : Bytes

pub record LogConfig : Type 0 where
  pub level : Bytes
  pub format : Bytes

pub record Config : Type 0 where
  pub scan : ScanConfig
  pub filter : FilterConfig
  pub naming : NamingConfig
  pub server : ServerConfig
  pub log : LogConfig

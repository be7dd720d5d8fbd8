-- ===== src/Config/Equal.antt =====
-- Equal and NamingChanged of internal/config/load.go. reflect.DeepEqual compares all fields, and tells
-- a nil list from an empty one.
use mathlib.Core.Logic.Iff
use cpu_process_exporter.Base.{
  and_iff, ◌≡◌, ◌↔◌, Bool, true, false, not, ◌&&◌, List, Option, none, some, Bytes, eqb, eqb_iff,
  Eq, bytes_eq, arith, list_eq, option_beq, option_eq, bool_beq, bool_beq_iff, option_beq_iff,
}
use cpu_process_exporter.Base.Eqs.{int_beq, int_beq_iff}
use cpu_process_exporter.Config.{ScanConfig, FilterConfig, NamingRule, NamingConfig, Config}

abbrev pub scan_beq : ScanConfig → ScanConfig → Bool
scan_beq a b =
    int_beq a.interval b.interval
    && int_beq a.batch_size b.batch_size
    && int_beq a.batch_sleep b.batch_sleep
    && int_beq a.fd_scan_every b.fd_scan_every
    && bool_beq a.read_smaps b.read_smaps
    && int_beq a.smaps_scan_every b.smaps_scan_every
    && bool_beq a.read_io b.read_io
    && bool_beq a.read_status b.read_status
    && bool_beq a.cache_cmdline b.cache_cmdline
    && int_beq a.group_retention b.group_retention
    && eqb a.proc_path b.proc_path

scan_same :
    (a b : ScanConfig)
    → (((((((((((a.interval ≡ b.interval) × (a.batch_size ≡ b.batch_size))
                        × (a.batch_sleep ≡ b.batch_sleep))
                      × (a.fd_scan_every ≡ b.fd_scan_every))
                    × (a.read_smaps ≡ b.read_smaps))
                  × (a.smaps_scan_every ≡ b.smaps_scan_every))
                × (a.read_io ≡ b.read_io))
              × (a.read_status ≡ b.read_status))
            × (a.cache_cmdline ≡ b.cache_cmdline))
          × (a.group_retention ≡ b.group_retention))
        × (a.proc_path ≡ b.proc_path))
      ↔ (a ≡ b)
scan_same a b = (λ h. cc, λ e. ground arith)

scan_beq_iff : (a b : ScanConfig) → (scan_beq a b ≡ true) ↔ (a ≡ b)
scan_beq_iff a b =
    Iff.trans
      (and_iff _ _
        (and_iff _ _
          (and_iff _ _
            (and_iff _ _
              (and_iff _ _
                (and_iff _ _
                  (and_iff _ _
                    (and_iff _ _
                      (and_iff _ _
                        (and_iff _ _ (int_beq_iff a.interval b.interval)
                          (int_beq_iff a.batch_size b.batch_size))
                        (int_beq_iff a.batch_sleep b.batch_sleep))
                      (int_beq_iff a.fd_scan_every b.fd_scan_every))
                    (bool_beq_iff a.read_smaps b.read_smaps))
                  (int_beq_iff a.smaps_scan_every b.smaps_scan_every))
                (bool_beq_iff a.read_io b.read_io))
              (bool_beq_iff a.read_status b.read_status))
            (bool_beq_iff a.cache_cmdline b.cache_cmdline))
          (int_beq_iff a.group_retention b.group_retention))
        (eqb_iff a.proc_path b.proc_path))
      (scan_same a b)

abbrev texts_beq : Option (List Bytes) → Option (List Bytes) → Bool
texts_beq a b = option_beq a b

texts_beq_iff : (a b : Option (List Bytes)) → (texts_beq a b ≡ true) ↔ (a ≡ b)
texts_beq_iff a b = option_beq_iff a b

abbrev pub filter_beq : FilterConfig → FilterConfig → Bool
filter_beq a b =
    bool_beq a.ignore_kernel_threads b.ignore_kernel_threads
    && texts_beq a.ignore_comm b.ignore_comm
    && texts_beq a.ignore_comm_prefix b.ignore_comm_prefix
    && texts_beq a.ignore_comm_regex b.ignore_comm_regex
    && texts_beq a.ignore_cmdline_regex b.ignore_cmdline_regex
    && texts_beq a.ignore_users b.ignore_users
    && texts_beq a.include_only b.include_only

filter_same :
    (a b : FilterConfig)
    → (((((((a.ignore_kernel_threads ≡ b.ignore_kernel_threads) × (a.ignore_comm ≡ b.ignore_comm))
                × (a.ignore_comm_prefix ≡ b.ignore_comm_prefix))
              × (a.ignore_comm_regex ≡ b.ignore_comm_regex))
            × (a.ignore_cmdline_regex ≡ b.ignore_cmdline_regex))
          × (a.ignore_users ≡ b.ignore_users))
        × (a.include_only ≡ b.include_only))
      ↔ (a ≡ b)
filter_same a b = (λ h. cc, λ e. ground arith)

filter_beq_iff : (a b : FilterConfig) → (filter_beq a b ≡ true) ↔ (a ≡ b)
filter_beq_iff a b =
    Iff.trans
      (and_iff _ _
        (and_iff _ _
          (and_iff _ _
            (and_iff _ _
              (and_iff _ _
                (and_iff _ _ (bool_beq_iff a.ignore_kernel_threads b.ignore_kernel_threads)
                  (texts_beq_iff a.ignore_comm b.ignore_comm))
                (texts_beq_iff a.ignore_comm_prefix b.ignore_comm_prefix))
              (texts_beq_iff a.ignore_comm_regex b.ignore_comm_regex))
            (texts_beq_iff a.ignore_cmdline_regex b.ignore_cmdline_regex))
          (texts_beq_iff a.ignore_users b.ignore_users))
        (texts_beq_iff a.include_only b.include_only))
      (filter_same a b)

abbrev rule_beq : NamingRule → NamingRule → Bool
rule_beq a b =
    eqb a.match_comm b.match_comm
    && eqb a.match_comm_prefix b.match_comm_prefix
    && eqb a.match_comm_regex b.match_comm_regex
    && eqb a.match_exe_regex b.match_exe_regex
    && eqb a.from b.from
    && eqb a.regex b.regex
    && eqb a.name b.name

rule_beq_iff : (a b : NamingRule) → (rule_beq a b ≡ true) ↔ (a ≡ b)
rule_beq_iff a b = ground (
  arith,
  eqb_iff a.match_comm b.match_comm,
  eqb_iff a.match_comm_prefix b.match_comm_prefix,
  eqb_iff a.match_comm_regex b.match_comm_regex,
  eqb_iff a.match_exe_regex b.match_exe_regex,
  eqb_iff a.from b.from,
  eqb_iff a.regex b.regex,
  eqb_iff a.name b.name,
)

instance abbrev rule_eq : Eq NamingRule
rule_eq = record { beq = rule_beq; beq_iff = rule_beq_iff }

abbrev pub naming_beq : NamingConfig → NamingConfig → Bool
naming_beq a b =
    eqb a.fallback b.fallback
    && bool_beq a.resolve_users b.resolve_users
    && option_beq a.rules b.rules

pub naming_beq_iff : (a b : NamingConfig) → (naming_beq a b ≡ true) ↔ (a ≡ b)
naming_beq_iff a b = ground (
  arith,
  eqb_iff a.fallback b.fallback,
  bool_beq_iff a.resolve_users b.resolve_users,
  option_beq_iff a.rules b.rules,
)

abbrev pub config_beq : Config → Config → Bool
config_beq a b =
    scan_beq a.scan b.scan
    && filter_beq a.filter b.filter
    && naming_beq a.naming b.naming
    && eqb a.server.listen b.server.listen
    && eqb a.server.metrics_path b.server.metrics_path
    && eqb a.log.level b.log.level
    && eqb a.log.format b.log.format

config_same :
    (a b : Config)
    → (((((((a.scan ≡ b.scan) × (a.filter ≡ b.filter)) × (a.naming ≡ b.naming))
              × (a.server.listen ≡ b.server.listen))
            × (a.server.metrics_path ≡ b.server.metrics_path))
          × (a.log.level ≡ b.log.level))
        × (a.log.format ≡ b.log.format))
      ↔ (a ≡ b)
config_same a b = (λ h. cc, λ e. ground arith)

config_beq_iff : (a b : Config) → (config_beq a b ≡ true) ↔ (a ≡ b)
config_beq_iff a b =
    Iff.trans
      (and_iff _ _
        (and_iff _ _
          (and_iff _ _
            (and_iff _ _
              (and_iff _ _
                (and_iff _ _ (scan_beq_iff a.scan b.scan) (filter_beq_iff a.filter b.filter))
                (naming_beq_iff a.naming b.naming))
              (eqb_iff a.server.listen b.server.listen))
            (eqb_iff a.server.metrics_path b.server.metrics_path))
          (eqb_iff a.log.level b.log.level))
        (eqb_iff a.log.format b.log.format))
      (config_same a b)

-- A nil pointer is none.
unfoldable pub equal : Option Config → Option Config → Bool
equal none none = true
equal none (some o) = false
equal (some c) none = false
equal (some c) (some o) = config_beq c o

unfoldable pub naming_changed : Option Config → Option Config → Bool
naming_changed none o = true
naming_changed (some c) none = true
naming_changed (some c) (some o) = not (naming_beq c.naming o.naming)

-- Two configurations are Equal exactly when they are the same.
pub equal_iff : (c o : Option Config) → (equal c o ≡ true) ↔ (c ≡ o)
unfolding equal
equal_iff none none = ground arith
equal_iff none (some o) = ground arith
equal_iff (some c) none = ground arith
equal_iff (some c) (some o) = ground (arith, config_beq_iff c o)

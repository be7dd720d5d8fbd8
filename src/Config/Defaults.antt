-- ===== src/Config/Defaults.antt =====
-- internal/config/defaults.go: the lists and the values that a configuration starts from.
use cpu_process_exporter.Base.{ℕ, ◌*◌, true, List, [], ◌∷◌, none, some, Bytes, codes}
use cpu_process_exporter.Base.Int.{pos}
use cpu_process_exporter.Config.{NamingRule, Config}

unfoldable pub default_ignore_comm : List Bytes
default_ignore_comm =
    codes "kthreadd"
    ∷ codes "rcu_gp"
    ∷ codes "rcu_par_gp"
    ∷ codes "rcu_sched"
    ∷ codes "rcu_bh"
    ∷ codes "rcu_tasks_kthre"
    ∷ codes "rcu_tasks_rude_"
    ∷ codes "rcu_tasks_trace"
    ∷ codes "kdevtmpfs"
    ∷ codes "kauditd"
    ∷ codes "khungtaskd"
    ∷ codes "oom_reaper"
    ∷ codes "writeback"
    ∷ codes "kcompactd0"
    ∷ codes "ksmd"
    ∷ codes "khugepaged"
    ∷ codes "kswapd0"
    ∷ codes "kblockd"
    ∷ codes "kintegrityd"
    ∷ codes "blkcg_punt_bio"
    ∷ codes "tpm_dev_wq"
    ∷ codes "ata_sff"
    ∷ codes "md"
    ∷ codes "edac-poller"
    ∷ codes "devfreq_wq"
    ∷ codes "watchdogd"
    ∷ codes "kthrotld"
    ∷ codes "ipv6_addrconf"
    ∷ codes "kstrp"
    ∷ codes "charger_manager"
    ∷ codes "acpi_thermal_pm"
    ∷ codes "mld"
    ∷ codes "jbd2"
    ∷ codes "ext4-rsv-conver"
    ∷ codes "netns"
    ∷ codes "kaluad"
    ∷ codes "kmpath_rdacd"
    ∷ codes "kmpathd"
    ∷ codes "kmpath_handlerd"
    ∷ codes "nvme-wq"
    ∷ codes "nvme-reset-wq"
    ∷ codes "nvme-delete-wq"
    ∷ codes "cryptd"
    ∷ codes "raid5wq"
    ∷ codes "dm_bufio_cache"
    ∷ codes "vfio-irqfd-clea"
    ∷ codes "zswap-shrink"
    ∷ codes "kworker"
    ∷ []

unfoldable pub default_ignore_comm_prefix : List Bytes
default_ignore_comm_prefix =
    codes "kworker/"
    ∷ codes "ksoftirqd/"
    ∷ codes "migration/"
    ∷ codes "watchdog/"
    ∷ codes "irq/"
    ∷ codes "cpuhp/"
    ∷ codes "idle_inject/"
    ∷ codes "scsi_eh_"
    ∷ codes "scsi_tmf_"
    ∷ codes "nfsd"
    ∷ codes "loop"
    ∷ codes "xfsalloc"
    ∷ codes "xfs-"
    ∷ codes "jbd2/"
    ∷ codes "ext4-"
    ∷ codes "card0-crtc"
    ∷ codes "ttm_swap"
    ∷ codes "kdmflush"
    ∷ []

unfoldable pub default_ignore_comm_regex : List Bytes
default_ignore_comm_regex = codes "^kworker/u?[0-9]+:[0-9]+" ∷ []

abbrev no_rule : NamingRule
no_rule = record {
  match_comm = [];
  match_comm_prefix = [];
  match_comm_regex = [];
  match_exe_regex = [];
  from = [];
  regex = [];
  name = [];
}

unfoldable pub default_naming_rules : List NamingRule
default_naming_rules =
    (record no_rule {
      match_comm = codes "java";
      from = codes "cmdline";
      regex = codes "-jar\\s+\\S*?([^/\\s]+)\\.jar";
      name = codes "java/$1";
    })
    ∷ (record no_rule {
      match_comm = codes "java";
      from = codes "cmdline";
      regex = codes "\\s([a-zA-Z][a-zA-Z0-9_]*(?:\\.[a-zA-Z0-9_]+)*\\.[A-Z][a-zA-Z0-9_]*)(?:\\s|$)";
      name = codes "java/$1";
    })
    ∷ (record no_rule {
      match_comm_prefix = codes "python";
      from = codes "cmdline";
      regex = codes "([^/\\s]+)\\.py";
      name = codes "python/$1";
    })
    ∷ (record no_rule {
      match_comm = codes "node";
      from = codes "cmdline";
      regex = codes "([^/\\s]+)\\.js";
      name = codes "node/$1";
    })
    ∷ (record no_rule {
      match_comm = codes "ruby";
      from = codes "cmdline";
      regex = codes "([^/\\s]+)\\.rb";
      name = codes "ruby/$1";
    })
    ∷ (record no_rule {
      match_comm = codes "systemd";
      from = codes "cmdline";
      regex = codes "(--user)";
      name = codes "systemd-user";
    })
    ∷ (record no_rule {
      match_comm_prefix = codes "containerd-shim";
      name = codes "containerd-shim";
    })
    ∷ (record no_rule { match_comm_prefix = codes "runc"; name = codes "runc" })
    ∷ []

-- A Duration in nanoseconds.
abbrev pub second : ℕ
second = 1_000_000_000

unfoldable pub default : Config
default = record {
  scan = record {
    interval = pos (5 * second);
    batch_size = pos 50;
    batch_sleep = pos 4_000_000;
    fd_scan_every = pos 12;
    read_smaps = true;
    smaps_scan_every = pos 12;
    read_io = true;
    read_status = true;
    cache_cmdline = true;
    group_retention = pos (3600 * second);
    proc_path = codes "/proc";
  };
  filter = record {
    ignore_kernel_threads = true;
    ignore_comm = none;
    ignore_comm_prefix = none;
    ignore_comm_regex = none;
    ignore_cmdline_regex = some [];
    ignore_users = some [];
    include_only = some [];
  };
  naming = record { fallback = codes "comm"; resolve_users = true; rules = none };
  server = record { listen = codes "0.0.0.0:9256"; metrics_path = codes "/metrics" };
  log = record { level = codes "info"; format = codes "json" };
}

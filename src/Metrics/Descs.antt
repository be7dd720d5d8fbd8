-- ===== src/Metrics/Descs.antt =====
-- The descriptions at the top of internal/metrics/metrics.go, without their help texts. Go's are
-- pointers, which nobody changes; each is here a constructor, with its name and its labels.
use cpu_process_exporter.Base.{List, [], ◌∷◌, ◌++◌, Bytes, codes}

pub data Desc : Type 0 where
  desc_num_procs desc_num_threads desc_rss desc_vsize desc_shared : Desc
  desc_data desc_pss desc_swap_pss desc_swap desc_pss_coverage : Desc
  desc_worst_fd desc_open_fds desc_max_fds desc_oldest_start desc_states : Desc
  desc_fd_coverage desc_io_coverage desc_cpu_seconds desc_minor_faults desc_major_faults : Desc
  desc_ctx_switches desc_read_bytes desc_write_bytes : Desc

abbrev pub group_labels : List Bytes
group_labels = codes "name" ∷ codes "user" ∷ []

unfoldable pub desc_name : Desc → Bytes
desc_name desc_num_procs = codes "process_group_num_procs"
desc_name desc_num_threads = codes "process_group_num_threads"
desc_name desc_rss = codes "process_group_memory_rss_bytes"
desc_name desc_vsize = codes "process_group_memory_vsize_bytes"
desc_name desc_shared = codes "process_group_memory_shared_bytes"
desc_name desc_data = codes "process_group_memory_data_bytes"
desc_name desc_pss = codes "process_group_memory_pss_bytes"
desc_name desc_swap_pss = codes "process_group_memory_swap_pss_bytes"
desc_name desc_swap = codes "process_group_memory_swap_bytes"
desc_name desc_pss_coverage = codes "process_group_pss_coverage_ratio"
desc_name desc_worst_fd = codes "process_group_worst_fd_ratio"
desc_name desc_open_fds = codes "process_group_open_fds"
desc_name desc_max_fds = codes "process_group_max_fds"
desc_name desc_oldest_start = codes "process_group_oldest_start_time_seconds"
desc_name desc_states = codes "process_group_states"
desc_name desc_fd_coverage = codes "process_group_fd_coverage_ratio"
desc_name desc_io_coverage = codes "process_group_io_coverage_ratio"
desc_name desc_cpu_seconds = codes "process_group_cpu_seconds_total"
desc_name desc_minor_faults = codes "process_group_minor_page_faults_total"
desc_name desc_major_faults = codes "process_group_major_page_faults_total"
desc_name desc_ctx_switches = codes "process_group_context_switches_total"
desc_name desc_read_bytes = codes "process_group_read_bytes_total"
desc_name desc_write_bytes = codes "process_group_write_bytes_total"

unfoldable pub desc_labels : Desc → List Bytes
desc_labels desc_num_procs = group_labels
desc_labels desc_num_threads = group_labels
desc_labels desc_rss = group_labels
desc_labels desc_vsize = group_labels
desc_labels desc_shared = group_labels
desc_labels desc_data = group_labels
desc_labels desc_pss = group_labels
desc_labels desc_swap_pss = group_labels
desc_labels desc_swap = group_labels
desc_labels desc_pss_coverage = group_labels
desc_labels desc_worst_fd = group_labels
desc_labels desc_open_fds = group_labels
desc_labels desc_max_fds = group_labels
desc_labels desc_oldest_start = group_labels
desc_labels desc_states = group_labels ++ (codes "state" ∷ [])
desc_labels desc_fd_coverage = group_labels
desc_labels desc_io_coverage = group_labels
desc_labels desc_cpu_seconds = group_labels ++ (codes "mode" ∷ [])
desc_labels desc_minor_faults = group_labels
desc_labels desc_major_faults = group_labels
desc_labels desc_ctx_switches = group_labels ++ (codes "kind" ∷ [])
desc_labels desc_read_bytes = group_labels
desc_labels desc_write_bytes = group_labels

-- What Describe sends, in order.
unfoldable pub describe : List Desc
describe =
    desc_num_procs ∷ desc_num_threads ∷ desc_rss ∷ desc_vsize ∷ desc_shared ∷ desc_data ∷ desc_pss
    ∷ desc_swap_pss ∷ desc_swap ∷ desc_pss_coverage ∷ desc_open_fds ∷ desc_max_fds ∷ desc_worst_fd
    ∷ desc_oldest_start ∷ desc_states ∷ desc_fd_coverage ∷ desc_io_coverage ∷ desc_cpu_seconds
    ∷ desc_minor_faults ∷ desc_major_faults ∷ desc_ctx_switches ∷ desc_read_bytes ∷ desc_write_bytes
    ∷ []

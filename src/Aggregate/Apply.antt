-- ===== src/Aggregate/Apply.antt =====
-- Apply of internal/aggregate/aggregate.go and the functions below it. The mutex makes each call one
-- step. Go leaves the order of a range over a map open; here it is that of insertion.
use cpu_process_exporter.Base.{
  ℕ, suc, ◌&&◌, ◌||◌, List, [], ◌∷◌, map, Option, none, some, Bytes, codes, lookup, insert, nat_eq,
  bytes_eq, ◌==◌, if◌then◌else◌, length, add64,
}
use cpu_process_exporter.Base.Int.{ℤ, pos, add_int, ltb_ℤ, leb_ℤ}
use cpu_process_exporter.Float.{Float64}
use cpu_process_exporter.Procfs.System.{System}
use cpu_process_exporter.Scan.State.{Process, or_zero}
use cpu_process_exporter.Scan.Loop.{ScanResult}
use cpu_process_exporter.Aggregate.Accums.{key_of, prune, no_accum, fold_accums}
use cpu_process_exporter.Aggregate.Types.{Key, key_eq, Accum, Sample, Snapshot, Aggregator}

unfoldable pub new_aggregator : {F : Type 0} → Aggregator F
new_aggregator = record { accums = []; names_seen = []; scans = 0 }

-- The readable name of a state letter.
unfoldable pub state_name : ℕ → Bytes
state_name s =
    if s == b'R'
    then codes "running"
    else if s == b'S'
    then codes "sleeping"
    else if s == b'D'
    then codes "disk_sleep"
    else if s == b'Z'
    then codes "zombie"
    else if s == b'T'
    then codes "stopped"
    else if s == b't'
    then codes "tracing_stop"
    else if s == b'X' || s == b'x'
    then codes "dead"
    else if s == b'I'
    then codes "idle"
    else if s == b'K'
    then codes "wakekill"
    else if s == b'W'
    then codes "waking"
    else if s == b'P'
    then codes "parked"
    else codes "unknown"

-- StateNames: the states under their names, one assignment for each.
unfoldable pub name_states : List (ℕ × ℕ) → List (Bytes × ℕ) → List (Bytes × ℕ)
name_states [] names = names
name_states ((st, n) ∷ states) names = name_states states (insert (state_name st) n names)

module _ {F : Type 0} where
  unfoldable pub names_seen_count : Aggregator F → ℕ
  names_seen_count a = length a.names_seen

  unfoldable pub reset : Aggregator F → Aggregator F
  reset a = record a { accums = []; names_seen = [] }

module _ {F : Type 0} (fl : Float64 F) (sys : System F) where
  abbrev pub new_sample : Process F → Sample F
  new_sample p = record {
    key = key_of p;
    num_procs = 0;
    threads = pos 0;
    rss_bytes = 0;
    vsize_bytes = 0;
    shared_bytes = 0;
    data_bytes = 0;
    swap_bytes = 0;
    open_fds = pos 0;
    max_fds = pos 0;
    oldest_start = p.start_unix;
    states = [];
    state_names = [];
    worst_fd_ratio = fl.zero_f;
    pss_bytes = 0;
    swap_pss_bytes = 0;
    accum = no_accum fl sys;
    fds_read = 0;
    io_read = 0;
    pss_read = 0;
  }

  abbrev pub sample_or_new : Process F → Option (Sample F) → Sample F
  sample_or_new p none = new_sample p
  sample_or_new p (some s) = s

  -- The sums that every member adds to.
  unfoldable pub add_sums : Process F → Sample F → Sample F
  add_sums p s = record s {
    num_procs = suc s.num_procs;
    threads = add_int s.threads p.threads;
    rss_bytes = add64 s.rss_bytes p.rss_bytes;
    vsize_bytes = add64 s.vsize_bytes p.vsize_bytes;
    shared_bytes = add64 s.shared_bytes p.shared_bytes;
    data_bytes = add64 s.data_bytes p.data_bytes;
    swap_bytes = add64 s.swap_bytes p.swap_bytes;
    states = insert p.state (suc (or_zero (lookup p.state s.states))) s.states;
  }

  unfoldable pub add_pss : Process F → Sample F → Sample F
  add_pss p s =
      if p.have_pss
      then record s {
        pss_bytes = add64 s.pss_bytes p.pss_bytes;
        swap_pss_bytes = add64 s.swap_pss_bytes p.swap_pss_bytes;
        pss_read = suc s.pss_read;
      }
      else s

  unfoldable pub add_start : Process F → Sample F → Sample F
  add_start p s =
      if fl.ltb_f fl.zero_f p.start_unix
        && (fl.eqb_f s.oldest_start fl.zero_f || fl.ltb_f p.start_unix s.oldest_start)
      then record s { oldest_start = p.start_unix }
      else s

  unfoldable pub add_fds : Process F → Sample F → Sample F
  add_fds p s =
      if p.have_fds && leb_ℤ (pos 0) p.open_fds
      then record s {
        open_fds = add_int s.open_fds p.open_fds;
        fds_read = suc s.fds_read;
        max_fds = if ltb_ℤ (pos 0) p.max_fds then add_int s.max_fds p.max_fds else s.max_fds;
        worst_fd_ratio =
            if fl.ltb_f s.worst_fd_ratio p.fd_ratio then p.fd_ratio else s.worst_fd_ratio;
      }
      else s

  unfoldable pub add_io : Process F → Sample F → Sample F
  add_io p s = if p.have_io then record s { io_read = suc s.io_read } else s

  -- What one round of the loop over the processes does to the sample of the group.
  unfoldable pub add_member : Process F → Sample F → Sample F
  unfolding add_sums add_pss add_start add_fds add_io
  add_member p s = add_io p (add_fds p (add_start p (add_pss p (add_sums p s))))

  unfoldable pub add_to_groups : List (Key × Sample F) → Process F → List (Key × Sample F)
  add_to_groups groups p =
      insert (key_of p) (add_member p (sample_or_new p (lookup (key_of p) groups))) groups

  -- The loop, over what it writes: the groups, the accumulators and the names seen.
  unfoldable pub fold_groups : List (Key × Sample F) → List (Process F) → List (Key × Sample F)
  fold_groups groups [] = groups
  fold_groups groups (p ∷ ps) = fold_groups (add_to_groups groups p) ps

  unfoldable pub fold_names : List (Bytes × Unit {0}) → List (Process F) → List (Bytes × Unit {0})
  fold_names names [] = names
  fold_names names (p ∷ ps) = fold_names (insert p.name tt names) ps

  abbrev pub accum_or : Option (Accum F) → Sample F → Accum F
  accum_or none s = s.accum
  accum_or (some acc) s = acc

  -- The second loop: each live group gets a copy of its accumulator and its state names.
  unfoldable pub complete : List (Key × Accum F) → Key × Sample F → Key × Sample F
  complete accums (k, s) =
      (k, record s { accum = accum_or (lookup k accums) s; state_names = name_states s.states [] })

  abbrev pub sample_of : Key × Sample F → Sample F
  sample_of (k, s) = s

  -- `wall` is what time.Now() answers, used where the scan carries no time.
  unfoldable pub apply : ℕ → ScanResult F → ℤ → Aggregator F → Snapshot F × Aggregator F
  unfolding fold_groups fold_accums fold_names complete prune
  apply wall res retention a =
      let scans = add64 a.scans 1 in
      let now = (if res.scan_at == 0 then wall else res.scan_at) in
      let accums = fold_accums fl sys now a.accums res.tally.procs in
      let names = fold_names a.names_seen res.tally.procs in
      let groups = map (complete accums) (fold_groups [] res.tally.procs) in
      (
        record {
          groups = groups;
          samples = map sample_of groups;
          scan_at = now;
          duration = res.duration;
          procs_total = res.total;
          procs_scanned = res.tally.scanned;
          procs_ignored = res.tally.ignored;
          procs_vanished = res.tally.vanished;
          procs_denied = res.tally.denied;
          read_errs = res.tally.read_errs;
          state_entries = res.state_entries;
          self_cpu = res.self_cpu;
          names_seen = length names;
          scan_number = scans;
        },
        record { accums = (prune now retention accums).0; names_seen = names; scans = scans },
      )

  -- The three coverage ratios.
  abbrev coverage : ℕ → ℕ → F
  coverage read procs =
      if procs == 0 then fl.zero_f else fl.div_f (fl.of_nat read) (fl.of_nat procs)

  unfoldable pub fd_coverage : Sample F → F
  fd_coverage s = coverage s.fds_read s.num_procs

  unfoldable pub io_coverage : Sample F → F
  io_coverage s = coverage s.io_read s.num_procs

  unfoldable pub pss_coverage : Sample F → F
  pss_coverage s = coverage s.pss_read s.num_procs

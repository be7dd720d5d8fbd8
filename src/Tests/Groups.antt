-- ===== src/Tests/Groups.antt =====
-- The theorems of the aggregator on three processes of two groups.
use cpu_process_exporter.Tests.{no_process, system}
use cpu_process_exporter.Base.{
  ◌%◌, ◌==◌, u64_mod, All, ltb, arith, ℕ, ◌+◌, ◌≤◌, ◌≡◌, refl, true, false, List, [], ◌∷◌, Option,
  none, some, codes, lookup, insert, length, count, eqb, bytes_eq, nat_eq,
}
use cpu_process_exporter.Base.Int.{pos}
use cpu_process_exporter.Float.{exact, exact-OrderLaws}
use cpu_process_exporter.Scan.State.{Process}
use cpu_process_exporter.Scan.Loop.{ScanResult, empty_tally}
use cpu_process_exporter.Aggregate.Types.{Key, key_eq, Sample, Accum, Aggregator}
use cpu_process_exporter.Aggregate.Accums.{fold_accums}
use cpu_process_exporter.Aggregate.Accums.{no_accum}
use cpu_process_exporter.Aggregate.Counters.{
  Continues, accums-Continues, read, value, total, published_counters,
}
use cpu_process_exporter.Aggregate.Apply.{
  complete, add_member, add_sums, add_pss, add_start, add_fds, add_io, add_to_groups, fold_groups,
  new_aggregator, new_sample, apply,
}
use cpu_process_exporter.Aggregate.Groups.{
  members, add_processes, has_fds, group_counts, coverage_bounds,
}
use cpu_process_exporter.Aggregate.Sums.{amount, open_fds, sum, group_sums}
use cpu_process_exporter.Scan.State.{or_zero}
use cpu_process_exporter.Aggregate.Worst.{worst_covers}
use cpu_process_exporter.Aggregate.Totals.{procs_in, procs_in-fold_groups}
use cpu_process_exporter.Aggregate.Retention.{AllFresh, live_accum, idle_accums}

abbrev web : Process ℕ
web = record no_process { pid = 3; name = codes "web"; user = codes "www"; have_io = true }

abbrev other_web : Process ℕ
other_web = record web { pid = 5; have_fds = true; open_fds = pos 4; have_io = false }

abbrev db : Process ℕ
db = record no_process { pid = 4; name = codes "db"; user = codes "www" }

abbrev procs : List (Process ℕ)
procs = web ∷ db ∷ other_web ∷ []

abbrev web_key : Key
web_key = record { name = codes "web"; user = codes "www" }

abbrev sample_of : Option (Sample ℕ) → Sample ℕ
sample_of none = new_sample exact system no_process
sample_of (some s) = s

unfoldable web_sample : Sample ℕ
web_sample = sample_of (lookup web_key (fold_groups exact system [] procs))

web_is : lookup web_key (fold_groups exact system [] procs) ≡ some web_sample
unfolding web_sample lookup insert eqb fold_groups add_to_groups add_member add_sums add_pss
    add_start add_fds add_io
web_is = refl

members-web : members web_key procs ≡ (web ∷ other_web ∷ [])
unfolding eqb
members-web = refl

group_sums_example :
    (amount open_fds web_sample ≡ sum exact system open_fds (members web_key procs) % u64_mod)
    × (or_zero (lookup 0 web_sample.states) ≡ count (λ p. p.state == 0) (members web_key procs))
group_sums_example = group_sums exact system web_key procs web_sample open_fds 0 web_is

group_counts_example :
    (web_sample.num_procs ≡ length (members web_key procs))
    × (web_sample.fds_read ≡ count (has_fds exact system) (members web_key procs))
    × (web_sample.io_read ≡ count (λ p. p.have_io) (members web_key procs))
    × (web_sample.pss_read ≡ count (λ p. p.have_pss) (members web_key procs))
group_counts_example = group_counts exact system web_key procs web_sample web_is

coverage_bounds_example :
    (web_sample.fds_read ≤ web_sample.num_procs)
    × (web_sample.io_read ≤ web_sample.num_procs)
    × (web_sample.pss_read ≤ web_sample.num_procs)
coverage_bounds_example = coverage_bounds exact system web_key procs web_sample web_is

procs_in-fold_groups_example : procs_in (fold_groups exact system [] procs) ≡ 0 + 3
procs_in-fold_groups_example = procs_in-fold_groups exact system [] procs

abbrev pub result : ScanResult ℕ
result = record {
  tally = record empty_tally { procs = procs; scanned = 3 };
  scan_at = 50;
  duration = pos 1;
  generation = 1;
  total = 3;
  state_entries = 3;
  state_pruned = 0;
  self_cpu = 0;
}

live_accum_example :
    lookup web_key (apply exact system 1 result (pos 6) new_aggregator).1.accums
    ≡ add_processes exact system
        (apply exact system 1 result (pos 6) new_aggregator).0.scan_at
        (lookup web_key new_aggregator.accums)
        (members web_key procs)
live_accum_example =
    live_accum exact system 1 result (pos 6) new_aggregator web_key web (other_web ∷ []) members-web

idle_accums_example :
    AllFresh
      (apply exact system 1 result (pos 6) new_aggregator).0.scan_at
      (pos 6)
      (apply exact system 1 result (pos 6) new_aggregator).1.accums
idle_accums_example = idle_accums exact system 1 result (pos 6) new_aggregator refl

worst_covers_example :
    All
      (λ p. has_fds exact system p ≡ true → ltb web_sample.worst_fd_ratio p.fd_ratio ≡ false)
      (members web_key procs)
worst_covers_example = worst_covers exact system exact-OrderLaws web_key procs web_sample web_is

-- A later scan, in which the two processes of the group have read on.
abbrev later : ScanResult ℕ
later = record result {
  tally = record empty_tally {
    procs =
        (record web { have_deltas = true; d_read_bytes = 7 })
        ∷ db
        ∷ (record other_web { have_deltas = true; have_io = true; d_read_bytes = 5 })
        ∷ [];
  };
}

abbrev web_accum : Accum ℕ
web_accum = record (no_accum exact system) { read_bytes = 30; last_seen = 40 }

abbrev grown : Aggregator ℕ
grown = record { accums = (web_key, web_accum) ∷ []; names_seen = []; scans = 1 }

unfoldable later_sample : Sample ℕ
later_sample = sample_of (lookup web_key (apply exact system 1 later (pos 6) grown).0.groups)

later_is : lookup web_key (apply exact system 1 later (pos 6) grown).0.groups ≡ some later_sample
unfolding later_sample apply lookup insert eqb fold_groups add_to_groups add_member add_sums add_pss
    add_start add_fds add_io complete
later_is = refl

web_held : lookup web_key grown.accums ≡ some web_accum
unfolding lookup eqb
web_held = refl

later_total : total read (members web_key later.tally.procs) ≡ 12
unfolding eqb
later_total = refl

published_counters_example :
    value read later_sample.accum ≡ 30 + total read (members web_key later.tally.procs)
published_counters_example =
    published_counters exact system 1 later (pos 6) grown web_key web_accum later_sample read
      web_held later_is (omega (arith, later_total))

accums-Continues_example :
    Continues exact system 50 read
      (lookup web_key grown.accums)
      (members web_key later.tally.procs)
      (lookup web_key (fold_accums exact system 50 grown.accums later.tally.procs))
unfolding lookup eqb
accums-Continues_example =
    accums-Continues exact system 50 web_key grown.accums later.tally.procs read (omega arith)

-- ===== src/Lib.antt =====
-- cpu_process_exporter: an exporter of per-group process metrics for Linux. Once an interval a scanner
-- reads every process under /proc; a filter decides which of them are exported, a namer gives each a
-- group name, and an aggregator adds them up into one sample to a group, with counters that go on over
-- the lives of the processes. The parts, in the order of a scan:
--
-- internal/procfs (Procfs): the readers of the files of a process. `World` is what the operating system
--   answers during a scan: a parameter. `Error` has errors by what errors.Is says of them, `Number` the
--   functions of strconv and strings, `Stat`, `Statm`, `Status`, `Io`, `Smaps`, `Fd`, `Cmdline` and
--   `Pids` one reader each, `System` the conversions, `Probe` what is asked of the
--   machine at the start, `Users` the cache of user names;
--   `Comm`, `Digits`, `Descriptors` and `RoundTrip` have the proofs.
-- internal/scan/state.go (StateMap): the memory between scans. `lookup_state` is Lookup, `put`,
--   `touch`, `prune`, `len`, `next_generation` and `delta` are the functions of those names; `Bounds`
--   and `Identity` have what is proved of them.
-- internal/filter (Filter): `new` is New, `keep` is Keep; `Decision`, `Cost` and `Compile` have the proofs.
-- internal/namer (Namer): `new`, `matches`, `apply_rule`, `fallback_name`, `name`, and Sanitize in
--   `Sanitize`; `Labels` and `Rules` have the proofs.
-- internal/scan/scan.go (Scan): `State` has the types and the monad in which readProcess is written: a
--   step works on the state map, the user cache and the result under construction, and stops where the
--   source returns nil. `Steps` and `Readings` have the steps of readProcess in their order, `Read` puts
--   them together, `Schedule` is shouldScanFDs and shouldScanSmaps, `Loop` is Scan. `Rule` lifts a
--   relation that every single step keeps to the whole of readProcess; `Accounting`, `Batches`, `Growth`,
--   `Whole`, `SameProcess`, `Returned`, `Deltas`, `Denied` and `Stacking` have the proofs.
-- internal/aggregate (Aggregate): `Types` has the records, `Accums` and `Apply` the operations: Apply is
--   split into what its loop does to the groups, to the accumulators and to the names, which do not read each other.
--   `Groups`, `Totals`, `Sums`, `Retention`, `Worst`, `Keys` and `Counters`
--   have the proofs.
-- internal/config (Config): the records of the configuration, and `needs_cmdline`. `Defaults` is
--   defaults.go; `Load` is Load, Parse, normalise and Validate of load.go, with the problems that Validate
--   reports as values, `Equal` is Equal and NamingChanged, and `Durations` decodes a Duration. `Watcher`
--   is watcher.go as a state machine: an event is a signal, a tick, a subscription or a reception, and
--   `step` is one round of the select of Run. What a subscriber does at its end of
--   the channel (`receive`, `Schedule`, `receive_at`) is not in the source; it may be anything. `Accepted`, `Builds`, `Bounds`, `Usable`, `Shipped`,
--   `Delivery` and `Reload` have the proofs.
-- internal/metrics (Metrics): `Descs` has the descriptions, `Collect` what a scrape collects of the
--   groups, `Registry` New, Publish and the other methods, whose effect on the client library's own
--   counters and gauges is the list of the calls made. `Emitted`, `Announced`, `Series` and `Scrape` have
--   the proofs.
-- internal/api (Api): `Handlers` has each handler as the answer it writes, `Routes` the table of patterns
--   and how Run ends; `Order`, `Ready` and `Clash` have the proofs.
-- `Base` has what the modules share, `Float` and `Regexp` the parameters for float64 and the package
-- regexp, `Tests` a small machine and the theorems applied to it.
--
-- Numbers: a uint64 is a natural number whose additions and multiplications are taken modulo 2^64, an
-- int is an integer; counts of processes are at most the length of the listing and do not wrap. A map is
-- an association list with one entry to a key. Loops are recursive on the list that they walk; the outer
-- loop of Scan has fuel, one round more than there are processes, which is enough since every round
-- takes at least one process. The clock, getrusage and the context are arguments of a scan.
--
-- The parts meet in this order: Load makes a Config, from which the filter, the namer and the scanner are
-- built; a scan's result goes through Apply into a Snapshot, which Publish installs and which a scrape
-- and the handlers read. The repository has no main program, so that the order of these calls is the
-- argument of the theorems that need it.
--
-- Not modelled: logging; the code of the libraries, which are parameters or named in the types: the
-- decoders and encoders of YAML and JSON, regexp, sort, the texts of times and durations, the Prometheus
-- client with its help texts and buckets, what it gathers for a scrape besides the collector of the
-- groups, ServeMux and the serving of connections.
pub mod Base
pub mod Float
pub mod Regexp
pub mod Config
pub mod Procfs
pub mod StateMap
pub mod Filter
pub mod Namer
pub mod Scan
pub mod Aggregate
pub mod Metrics
pub mod Api
pub mod Tests

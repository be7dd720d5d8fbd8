-- ===== src/Scan/Whole.antt =====
-- What a whole scan promises: its counts add up, and it leaves the state map no larger than the
-- listing of processes.

use cpu_process_exporter.Base.{
  ℕ, suc, ◌+◌, ◌<◌, ◌≤◌, ◌≡◌, ◌≢◌, refl, sym, ap, subst, ◌∙◌, List, length, arith, All, u64_mod,
  lookup,
}
use cpu_process_exporter.Base.Int.{pos, ltb_ℤ}
use cpu_process_exporter.Procfs.Error.{Result, ok, err}
use cpu_process_exporter.Procfs.Pids.{list_pids}
use cpu_process_exporter.StateMap.{len, prune}
use cpu_process_exporter.StateMap.Bounds.{
  NotAfter, next_generation-NotAfter, prune-NotAfter, Grows-NotAfter, prune_bound,
}
use cpu_process_exporter.Scan.State.{Tally, St, Env}
use cpu_process_exporter.Scan.Accounting.{left_out, read_all-Tallied}
use cpu_process_exporter.Scan.Batches.{Runs, walk-read_all, walk-done, walk-ne-out_of_fuel}
use cpu_process_exporter.Scan.Loop.{
  Scanner, ScanResult, Context, Clock, Outcome, done, failed, out_of_fuel, read_all, walk, batch_of,
  start_scan, scan_env, start_st, finish_scan, scan_listed, scan, empty_tally,
}
use cpu_process_exporter.Scan.Growth.{read_all-Grows, walk_inv, finish_scan-done}

abbrev pub scan_no_of : {F : Type 0} → Scanner F → ℕ
scan_no_of sc = (start_scan sc).scan_no

left_out-empty : (F : Type 0) → left_out (empty_tally {F = F}) ≡ 0
unfolding lookup
left_out-empty F = refl

module _ {F R M : Type 0} (env : Env F R M) (ctx : Context) (clock : Clock) (sc : Scanner F) where
  -- The walk of this scan.
  abbrev walk_all : Scanner F → List ℕ → Outcome (Unit {0}) × St F
  walk_all start pids =
      walk (scan_env env start.scan_no) ctx pids (batch_of env.config.scan)
        (ltb_ℤ (pos 0) env.config.scan.batch_sleep) (suc (length pids)) 0 0 (start_st start)

  batch_of_pos : 0 < batch_of env.config.scan
  batch_of_pos = ground arith

  -- A scan that lists its processes and that nothing cancels is a plain read of every listed process in
  -- order, followed by the end of the scan.
  pub scan-read_all :
      (pids : List ℕ)
      → Runs ctx
      → list_pids env.world ≡ ok pids
      → scan env ctx clock sc
        ≡ finish_scan env clock
            (scan_no_of sc)
            (length pids)
            (done tt, read_all (scan_env env (scan_no_of sc)) pids (start_st (start_scan sc)))
  unfolding scan
  scan-read_all pids runs listed = rw listed (
      rw (walk-read_all _ ctx pids _ _ runs batch_of_pos (suc (length pids)) 0 0 _ (omega arith))
        refl)

  -- The facts of a scan that ends without an error, from its parts.
  record Ended (pids : List ℕ) (r : ScanResult F) (sc' : Scanner F) : Type 0 where
    last : St F
    reads : last ≡ read_all (scan_env env (scan_no_of sc)) pids (start_st (start_scan sc))
    tally_is : r.tally ≡ last.res
    total_is : r.total ≡ length pids
    state_is : sc'.state ≡ (prune last.states).1
    entries_is : r.state_entries ≡ len (prune last.states).1

  Ended-walk :
      (pids : List ℕ) (o : Outcome (Unit {0})) (s : St F) {r : ScanResult F} {sc' : Scanner F}
      → walk_all (start_scan sc) pids ≡ (o, s)
      → finish_scan env clock (scan_no_of sc) (length pids) (o, s) ≡ (done r, sc')
      → Ended pids r sc'
  Ended-walk pids o s walked h =
      let facts = finish_scan-done env clock (scan_no_of sc) (length pids) o s h in
      record {
        last = s;
        reads =
            walk-done _ ctx pids _ _ batch_of_pos (suc (length pids)) 0 0 _ s
              (walked ∙ ap (λ x. (x, s)) facts.0);
        tally_is = facts.1;
        total_is = facts.2;
        state_is = facts.3;
        entries_is = facts.4;
      }

  Ended-listed :
      (x : Result (List ℕ)) {r : ScanResult F} {sc' : Scanner F}
      → scan_listed env ctx clock (start_scan sc) x ≡ (done r, sc')
      → (pids : List ℕ) × (x ≡ ok pids) × Ended pids r sc'
  unfolding scan_listed
  Ended-listed (err e) h = cc
  Ended-listed (ok pids) h = (pids, refl, Ended-walk pids _ _ refl h)

  scan-Ended :
      {r : ScanResult F} {sc' : Scanner F}
      → scan env ctx clock sc ≡ (done r, sc')
      → (pids : List ℕ) × (list_pids env.world ≡ ok pids) × Ended pids r sc'
  unfolding scan
  scan-Ended h = Ended-listed (list_pids env.world) h

  -- The counts of a scan add up: every listed process is returned, ignored, vanished, denied, or had a
  -- stat file that could not be read, and is in one of the five counts only.
  pub scan_counts :
      (r : ScanResult F) (sc' : Scanner F)
      → scan env ctx clock sc ≡ (done r, sc')
      → (r.tally.scanned + left_out r.tally ≡ r.total) × (length r.tally.procs ≡ r.tally.scanned)
  scan_counts r sc' h =
      let (pids, listed, e) = scan-Ended h in
      let tallied =
        read_all-Tallied (scan_env env (scan_no_of sc)) pids (start_st (start_scan sc)) in
      let counted : Tally F → ℕ → Type 0 =
        λ t n. (t.scanned + left_out t ≡ n) × (length t.procs ≡ t.scanned) in
      subst (λ t. counted t r.total) (sym (e.tally_is ∙ ap (λ s. s.res) e.reads))
        (subst (counted _) (sym e.total_is)
          (omega (arith, tallied, left_out-empty F), omega (arith, tallied)))

  -- The invariant of the scanner between two scans.
  abbrev pub IsBounded : Scanner F → Type 0
  IsBounded x = NotAfter x.state.gen x.state.m

  start_scan-IsBounded : sc.state.gen + 1 < u64_mod → IsBounded sc → IsBounded (start_scan sc)
  start_scan-IsBounded fits h = (next_generation-NotAfter sc.state fits h).0

  finish_scan-IsBounded :
      (scan_no total : ℕ) (o : Outcome (Unit {0}) × St F)
      → NotAfter o.1.states.gen o.1.states.m
      → IsBounded (finish_scan env clock scan_no total o).1
  unfolding finish_scan
  finish_scan-IsBounded scan_no total (done x, s) h = prune-NotAfter s.states h
  finish_scan-IsBounded scan_no total (failed e, s) h = h
  finish_scan-IsBounded scan_no total (out_of_fuel, s) h = h

  scan_listed-IsBounded :
      (x : Result (List ℕ)) (start : Scanner F)
      → IsBounded start
      → IsBounded (scan_listed env ctx clock start x).1
  unfolding scan_listed
  scan_listed-IsBounded (err e) start h = h
  scan_listed-IsBounded (ok pids) start h =
      let env' = scan_env env start.scan_no in
      finish_scan-IsBounded start.scan_no (length pids) (walk_all start pids) (
        walk_inv env' (λ s. NotAfter s.states.gen s.states.m)
          (λ l s. Grows-NotAfter (length l) s.states _ (read_all-Grows env' l s)) ctx pids
          (batch_of env.config.scan) (ltb_ℤ (pos 0) env.config.scan.batch_sleep) (suc (length pids))
          0 0 (start_st start) h)

  -- If the generation counter is not about to wrap and no entry is of a later generation than it, this
  -- holds again after a scan, however it ends: done, failed or cancelled.
  pub scan-IsBounded :
      sc.state.gen + 1 < u64_mod → IsBounded sc → IsBounded (scan env ctx clock sc).1
  unfolding scan
  scan-IsBounded fits h =
      scan_listed-IsBounded (list_pids env.world) (start_scan sc) (start_scan-IsBounded fits h)

  -- If the generation counter is not about to wrap and no entry is of a later generation than it, a scan
  -- that ends without an error leaves at most one entry for each listed process, reports their number,
  -- and leaves only entries stamped in this scan.
  pub scan_entries :
      (r : ScanResult F) (sc' : Scanner F)
      → sc.state.gen + 1 < u64_mod
      → IsBounded sc
      → scan env ctx clock sc ≡ (done r, sc')
      → (r.state_entries ≤ r.total)
        × (r.state_entries ≡ len sc'.state)
        × All (λ e. e.1.generation ≡ sc'.state.gen) sc'.state.m
  scan_entries r sc' fits bounded h =
      let (pids, listed, e) = scan-Ended h in
      let start = next_generation-NotAfter sc.state fits bounded in
      let grown = read_all-Grows (scan_env env (scan_no_of sc)) pids (start_st (start_scan sc)) in
      let pruned = prune_bound (length pids) _ _ grown start.0 start.1 in
      rw (e.entries_is, e.state_is, e.total_is, e.reads) (pruned.0, refl, pruned.1)

  finish_scan-ends :
      (scan_no total : ℕ) (o : Outcome (Unit {0})) (s : St F)
      → o ≢ out_of_fuel
      → (finish_scan env clock scan_no total (o, s)).0 ≢ out_of_fuel
  unfolding finish_scan
  finish_scan-ends scan_no total (done x) s h = λ e. cc
  finish_scan-ends scan_no total (failed x) s h = λ e. cc
  finish_scan-ends scan_no total out_of_fuel s h = absurd (h refl)

  scan_listed-ends :
      (x : Result (List ℕ)) → (scan_listed env ctx clock (start_scan sc) x).0 ≢ out_of_fuel
  unfolding scan_listed
  scan_listed-ends (err e) = λ e. cc
  scan_listed-ends (ok pids) =
      let o = walk_all (start_scan sc) pids in
      finish_scan-ends (scan_no_of sc) (length pids) o.0 o.1 (
        walk-ne-out_of_fuel (scan_env env (scan_no_of sc)) ctx pids (batch_of env.config.scan)
          (ltb_ℤ (pos 0) env.config.scan.batch_sleep) batch_of_pos (suc (length pids)) 0 0 _
          (omega arith))

  -- A scan ends: the rounds of its loop never run out, whatever the batch size, the listing and the
  -- context are.
  pub scan-ends : (scan env ctx clock sc).0 ≢ out_of_fuel
  unfolding scan
  scan-ends = scan_listed-ends (list_pids env.world)

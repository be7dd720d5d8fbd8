-- ===== src/Scan/Growth.antt =====
-- What the loops of Scan do to the state map, and what a finished scan is made of.
use native.Mathlib.Nat.{add_comm}
use native.Mathlib.Numerals.{add-one}
use cpu_process_exporter.Base.{
  ℕ, zero, suc, ◌+◌, ◌-◌, ◌≡◌, refl, subst, ◌∙◌, Bool, List, [], ◌∷◌, Option, none, some, length,
  take, drop, arith,
}
use cpu_process_exporter.StateMap.{len, prune}
use cpu_process_exporter.StateMap.Bounds.{
  Grows, Grows-refl, Grows-trans, Grows-mono, lookup_state-Grows, put-Grows, touch-Grows,
}
use cpu_process_exporter.Scan.State.{Process, St, Env}
use cpu_process_exporter.Scan.Batches.{end_of}
use cpu_process_exporter.Scan.Loop.{
  Scanner, ScanResult, Context, Clock, Outcome, done, failed, out_of_fuel, read_all, add_process,
  walk, finish_scan,
}
use cpu_process_exporter.Scan.Read.{read_process}
use cpu_process_exporter.Scan.Rule.{Rel, Rules, read_process-Keeps}

abbrev Same : {F : Type 0} → Rel F
Same s n s' = Grows s.states 0 s'.states

abbrev One : {F : Type 0} → Rel F
One s n s' = Grows s.states 1 s'.states

growing : {F : Type 0} → Rules {F = F} Same One
growing = record {
  steps = record {
    refl_r = λ s. Grows-refl s.states;
    vanished_r = λ s. Grows-refl s.states;
    noted_r = λ s file h. Grows-refl s.states;
    users_r = λ s users. Grows-refl s.states;
  };
  trans_t = λ c s s' s'' h k. Grows-trans 0 1 s.states s'.states s''.states h k;
  stop_t = λ s s' h. Grows-mono s.states s'.states h;
  denied_r = λ s. Grows-refl s.states;
  stat_r = λ s. Grows-refl s.states;
  lookup_r = λ s pid ticks. lookup_state-Grows s.states pid ticks;
  ignored_t = λ s pid. touch-Grows s.states pid;
  put_t = λ s pid cur. put-Grows s.states pid cur;
}

module _ {F R M : Type 0} (env : Env F R M) where
  add_process-states :
      (o : Option (Process F)) (s : St F) → (add_process env (o, s)).states ≡ s.states
  add_process-states none s = refl
  add_process-states (some p) s = refl

  read_one-Grows :
      (pid : ℕ) (s : St F) → Grows s.states 1 (add_process env (read_process env pid s)).states
  read_one-Grows pid s =
      rw (add_process-states (read_process env pid s).0 (read_process env pid s).1)
        ((read_process-Keeps Same One growing env pid).at s)

  pub read_all-Grows :
      (pids : List ℕ) (s : St F) → Grows s.states (length pids) (read_all env pids s).states
  unfolding read_all
  read_all-Grows [] s = Grows-refl s.states
  read_all-Grows (pid ∷ pids) s =
      subst (λ n. Grows s.states n (read_all env (pid ∷ pids) s).states)
        (add_comm 1 (length pids) ∙ add-one (length pids))
        (Grows-trans 1 (length pids) s.states _ _ (read_one-Grows pid s) (read_all-Grows pids _))

  -- What each batch keeps, the walk keeps, however it ends.
  pub walk_inv :
      (P : St F → Type 0)
      → ((l : List ℕ) (s : St F) → P s → P (read_all env l s))
      → (ctx : Context) (pids : List ℕ) (batch : ℕ) (sleeps : Bool) (fuel k i : ℕ) (s : St F) → P s
      → P (walk env ctx pids batch sleeps fuel k i s).1
  unfolding walk
  walk_inv P keep ctx pids batch sleeps zero k i s h = h
  walk_inv P keep ctx pids batch sleeps (suc fuel) k i s h =
      let batch_read = keep (take (end_of (length pids) (i + batch) - i) (drop i pids)) s h in
      ground (
        arith,
        batch_read,
        walk_inv P keep ctx pids batch sleeps fuel (suc k) (i + batch) _ batch_read,
      )

  -- What a scan that ends without an error returns, and the state that it leaves.
  pub finish_scan-done :
      (clock : Clock) (scan_no total : ℕ) (o : Outcome (Unit {0})) (s : St F) {r : ScanResult F}
      {sc' : Scanner F}
      → finish_scan env clock scan_no total (o, s) ≡ (done r, sc')
      → (o ≡ done tt)
        × (r.tally ≡ s.res)
        × (r.total ≡ total)
        × (sc'.state ≡ (prune s.states).1)
        × (r.state_entries ≡ len (prune s.states).1)
  unfolding finish_scan
  finish_scan-done clock scan_no total (done tt) s h = ground arith
  finish_scan-done clock scan_no total (failed e) s h = cc
  finish_scan-done clock scan_no total out_of_fuel s h = cc

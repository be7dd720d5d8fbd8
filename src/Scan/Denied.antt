-- ===== src/Scan/Denied.antt =====
-- A process whose command line cannot be read, under a filter that ignores kernel threads.
use cpu_process_exporter.Base.{
  ℕ, ◌≡◌, refl, sym, ap, ◌∙◌, Bool, true, false, List, [], Option, none, some, Bytes, arith,
}
use cpu_process_exporter.Filter
use cpu_process_exporter.Filter.{keep, is_kernel_thread}
use cpu_process_exporter.Procfs.Error.{Error, err}
use cpu_process_exporter.Procfs.Cmdline.{read_cmdline}
use cpu_process_exporter.Procfs.Stat.{Stat}
use cpu_process_exporter.StateMap.{PidState}
use cpu_process_exporter.Scan.State.{St, Env, Step, ◌>>=◌, continue}
use cpu_process_exporter.Scan.Read.{read_process}
use cpu_process_exporter.Scan.Steps.{
  stat_step, lookup_step, cmdline_step, cmdline_result, status_step, filter_step, filter_input,
}

none-ne-some : {A : Type 0} {a : A} → ¬ (none ≡ some a)
none-ne-some h = cc

module _ {F : Type 0} where
  continue-none :
      {A B : Type 0} (o : Option A) (s : St F) (f : A → Step F B)
      → ((a : A) → o ≡ some a → (f a s).0 ≡ none)
      → (continue o f s).0 ≡ none
  continue-none none s f h = refl
  continue-none (some a) s f h = h a refl

  -- Steps in sequence yield nothing if the second yields nothing for any value that the first yields.
  bind-none :
      {A B : Type 0} (m : Step F A) (s : St F) (f : A → Step F B)
      → ((a : A) → (m s).0 ≡ some a → (f a (m s).1).0 ≡ none)
      → ((m >>= f) s).0 ≡ none
  unfolding ◌>>=◌
  bind-none m s f h = continue-none (m s).0 (m s).1 f h

module _ {F R M : Type 0} (env : Env F R M) (pid : ℕ) where
  -- The filter takes no process without a command line.
  keep-none :
      (st : Stat) (user : Bytes)
      → env.filter.ignore_kernel ≡ true
      → (keep env.regexp env.filter (filter_input st ([], true) user)).0 ≡ false
  unfolding keep is_kernel_thread
  keep-none st user on = ground arith

  filter_step-none :
      (i : Filter.Input)
      → (keep env.regexp env.filter i).0 ≡ false
      → (s : St F) → (filter_step env pid i s).0 ≡ none
  unfolding filter_step
  filter_step-none i h s = ground arith

  cmdline_result-some :
      (e : Error) (c : List Bytes × Bool) (s : St F)
      → (cmdline_result env pid (err e) s).0 ≡ some c
      → c ≡ ([], true)
  unfolding cmdline_result
  cmdline_result-some e c s h = ground arith

  cmdline_step-some :
      (prev : Option (PidState F)) (e : Error) (c : List Bytes × Bool) (s : St F)
      → env.filter.needs_cmdline ≡ true
      → read_cmdline env.world pid ≡ err e
      → (cmdline_step env pid prev s).0 ≡ some c
      → c ≡ ([], true)
  unfolding cmdline_step
  cmdline_step-some prev e c s needs denied h =
      cmdline_result-some e c s (sym (ground (arith, needs, denied)) ∙ h)

  -- Where the filter ignores kernel threads, and so needs the command line, a process whose command
  -- line cannot be read is not exported, whatever it is.
  pub unread_cmdline :
      (e : Error) (s : St F)
      → env.filter.ignore_kernel ≡ true
      → env.filter.needs_cmdline ≡ true
      → read_cmdline env.world pid ≡ err e
      → (read_process env pid s).0 ≡ none
  unfolding read_process
  unread_cmdline e s on needs denied = bind-none (stat_step env pid) s _ (λ a a_is.
      bind-none (lookup_step env pid a) _ _ (λ prev prev_is.
        bind-none (cmdline_step env pid prev) _ _ (λ c c_is.
          bind-none (status_step env pid prev) _ _ (λ owner owner_is.
            bind-none (filter_step env pid (filter_input a c owner.1)) _ _ (λ x x_is. absurd (
              none-ne-some (
                sym (
                  filter_step-none (filter_input a c owner.1)
                    (ap (λ c. (keep env.regexp env.filter (filter_input a c owner.1)).0)
                        (cmdline_step-some prev e c _ needs denied c_is)
                      ∙ keep-none a owner.1 on)
                    _)
                ∙ x_is)))))))

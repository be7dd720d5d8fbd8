-- ===== src/Scan/SameProcess.antt =====
-- The steps of readProcess behind `new_process` leave the identity, the name and the owner of the
-- process alone.
use cpu_process_exporter.Base.{
  ℕ, ◌≡◌, refl, ◌∙◌, Bool, true, false, Option, none, some, arith, not, ◌⊎◌, inl, inr,
  if◌then◌else◌,
}
use cpu_process_exporter.Procfs.Error.{Result, ok, err}
use cpu_process_exporter.Procfs.Fd.{count_fds}
use cpu_process_exporter.Procfs.Smaps.{Smaps, read_smaps}
use cpu_process_exporter.Procfs.Statm.{Statm}
use cpu_process_exporter.StateMap.{PidState}
use cpu_process_exporter.Scan.State.{Process, St, Env, Step, ◌>>=◌, continue, pure}
use cpu_process_exporter.Scan.Readings.{
  statm_result, fds_step, fds_result, cached_fds, smaps_step, smaps_result, cached_smaps,
}

-- What the steps behind `new_process` leave alone.
pub record SameProcess {F : Type 0} (p q : Process F) : Type 0 where
  pub same_pid : q.pid ≡ p.pid
  pub same_ticks : q.start_ticks ≡ p.start_ticks
  pub same_deltas : q.have_deltas ≡ p.have_deltas
  pub same_status : q.have_status ≡ p.have_status
  pub same_name : q.name ≡ p.name
  pub same_user : q.user ≡ p.user
  pub same_io : q.have_io ≡ p.have_io

pub SameProcess-trans :
    {F : Type 0} (p q u : Process F) → SameProcess p q → SameProcess q u → SameProcess p u
SameProcess-trans p q u h k = record {
  same_pid = k.same_pid ∙ h.same_pid;
  same_ticks = k.same_ticks ∙ h.same_ticks;
  same_deltas = k.same_deltas ∙ h.same_deltas;
  same_status = k.same_status ∙ h.same_status;
  same_name = k.same_name ∙ h.same_name;
  same_user = k.same_user ∙ h.same_user;
  same_io = k.same_io ∙ h.same_io;
}

module _ {F : Type 0} where
  pub continue-eq-some :
      {A B : Type 0} (o : Option A) (f : A → Step F B) (s : St F) {b : B} {s' : St F}
      → continue o f s ≡ (some b, s')
      → (a : A) × (o ≡ some a) × (f a s ≡ (some b, s'))
  continue-eq-some none f s h = cc
  continue-eq-some (some a) f s h = (a, refl, h)

  -- A step behind another returns only if both do.
  pub >>=-eq-some :
      {A B : Type 0} (m : Step F A) (f : A → Step F B) (s : St F) {b : B} {s' : St F}
      → (m >>= f) s ≡ (some b, s')
      → (a : A) × ((m s).0 ≡ some a) × (f a (m s).1 ≡ (some b, s'))
  unfolding ◌>>=◌
  >>=-eq-some m f s h = continue-eq-some (m s).0 f (m s).1 h

  pub if-eq-some :
      {A : Type 0} (b : Bool) (m n : Step F A) (s : St F) {a : A}
      → ((if b then m else n) s).0 ≡ some a
      → ((m s).0 ≡ some a) ⊎ ((n s).0 ≡ some a)
  if-eq-some true m n s h = inl h
  if-eq-some false m n s h = inr h

  pub same_refl : (p : Process F) → SameProcess p p
  same_refl p = ground arith

module _ {F R M : Type 0} (env : Env F R M) (pid : ℕ) where
  pub statm_result-SameProcess :
      (p q : Process F) (x : Result Statm) (s : St F)
      → (statm_result env pid p x s).0 ≡ some q
      → SameProcess p q
  unfolding statm_result
  statm_result-SameProcess p q (ok sm) s h = ground arith
  statm_result-SameProcess p q (err e) s h = ground arith

  fds_result-SameProcess :
      (p q : Process F) (x : Result ℕ) (s : St F)
      → (fds_result env pid p x s).0 ≡ some q
      → SameProcess p q
  unfolding fds_result
  fds_result-SameProcess p q (ok fds) s h = ground arith
  fds_result-SameProcess p q (err e) s h = ground arith

  smaps_result-SameProcess :
      (p q : Process F) (x : Result Smaps) (s : St F)
      → (smaps_result env pid p x s).0 ≡ some q
      → SameProcess p q
  unfolding smaps_result
  smaps_result-SameProcess p q (ok sm) s h = ground arith
  smaps_result-SameProcess p q (err e) s h = ground arith

  cached_fds-SameProcess :
      (p : Process F) (prev : Option (PidState F)) → SameProcess p (cached_fds env pid p prev)
  unfolding cached_fds
  cached_fds-SameProcess p none = ground arith
  cached_fds-SameProcess p (some prev) = ground arith

  cached_smaps-SameProcess :
      (p : Process F) (prev : Option (PidState F)) → SameProcess p (cached_smaps env pid p prev)
  unfolding cached_smaps
  cached_smaps-SameProcess p none = ground arith
  cached_smaps-SameProcess p (some prev) = ground arith

  some-SameProcess :
      (p q u : Process F)
      → SameProcess p u
      → ◌≡◌ {A = Option (Process F)} (some u) (some q)
      → SameProcess p q
  some-SameProcess p q u h e = ground arith

  pub fds_step-SameProcess :
      (p q : Process F) (prev : Option (PidState F)) (s : St F)
      → (fds_step env pid p prev s).0 ≡ some q
      → SameProcess p q
  unfolding fds_step
  fds_step-SameProcess p q prev s h =
      elim (if-eq-some env.do_fds (fds_result env pid p (count_fds env.world pid)) _ s h) [
        | inl walked ↦ fds_result-SameProcess p q (count_fds env.world pid) s walked
        | inr kept ↦ some-SameProcess p q _ (cached_fds-SameProcess p prev) kept
      ]

  pub smaps_step-SameProcess :
      (p q : Process F) (prev : Option (PidState F)) (s : St F)
      → (smaps_step env pid p prev s).0 ≡ some q
      → SameProcess p q
  unfolding smaps_step
  smaps_step-SameProcess p q prev s h =
      elim (if-eq-some (not env.config.scan.read_smaps) (pure p) _ s h) [
        | inl off ↦ some-SameProcess p q p (same_refl p) off
        | inr on ↦
            elim (if-eq-some env.do_smaps
              (smaps_result env pid p (read_smaps env.world pid env.system.smaps_rollup)) _ s on) [
                | inl walked ↦ smaps_result-SameProcess p q _ s walked
                | inr kept ↦ some-SameProcess p q _ (cached_smaps-SameProcess p prev) kept
              ]
      ]

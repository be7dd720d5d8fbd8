-- ===== src/Scan/Rule.antt =====
-- A rule for readProcess: a relation between the state before and after, given how many processes
-- were dropped (0 or 1), holds of the whole if it holds of each move that its steps can make.
use cpu_process_exporter.Base.{
  ℕ, ◌≡◌, refl, Bool, true, false, not, List, [], ◌∷◌, Option, none, some, Bytes, codes, eqb,
  if◌then◌else◌, Bool-cases, inl, inr,
}
use cpu_process_exporter.Filter
use cpu_process_exporter.Filter.{keep}
use cpu_process_exporter.Procfs.Error.{Result, ok, err, is_vanished, is_denied}
use cpu_process_exporter.Procfs.Io.{Io}
use cpu_process_exporter.Procfs.Smaps.{Smaps}
use cpu_process_exporter.Procfs.Stat.{Stat}
use cpu_process_exporter.Procfs.Statm.{Statm}
use cpu_process_exporter.Procfs.Status.{Status}
use cpu_process_exporter.Procfs.Users.{UserCache}
use cpu_process_exporter.StateMap.{PidState, lookup_state, touch, put}
use cpu_process_exporter.Scan.State.{
  Process, St, Env, Step, ◌>>=◌, continue, pure, note, stop, count_vanished, count_denied,
  count_ignored, count_err,
}
use cpu_process_exporter.Scan.Steps.{
  stat_step, stat_result, cmdline_result, status_result, resolve_user, lookup_step, cmdline_step,
  status_step, filter_step,
}
use cpu_process_exporter.Scan.Readings.{
  statm_result, io_result, fds_result, smaps_result, statm_step, io_step, fds_step, smaps_step,
  put_step,
}
use cpu_process_exporter.Scan.Read.{finish, read_kept, read_process}

-- How many processes the outcome of a step drops.
abbrev pub cost : {A : Type 0} → Option A → ℕ
cost none = 1
cost (some a) = 0

abbrev pub Rel : Type 0 → Type 1
Rel F = St F → ℕ → St F → Type 0

pub record Keeps {F A : Type 0} (r : Rel F) (m : Step F A) : Type 0 where
  pub at : (s : St F) → r s (cost (m s).0) (m s).1

-- What the steps that do not touch the state map can do.
pub record StepRules {F : Type 0} (r : Rel F) : Type 0 where
  pub refl_r : (s : St F) → r s 0 s
  pub vanished_r : (s : St F) → r s 1 (record s { res = count_vanished s.res })
  pub noted_r :
      (s : St F) (file : Bytes)
      → eqb file (codes "stat") ≡ false
      → r s 0 (record s { res = count_err file s.res })
  pub users_r : (s : St F) (users : UserCache) → r s 0 (record s { users = users })

-- `r` is kept by each step, `t` by the steps up to the one that ends a process.
pub record Rules {F : Type 0} (r t : Rel F) : Type 0 where
  pub steps : StepRules r
  pub trans_t : (c : ℕ) (s s' s'' : St F) → r s 0 s' → t s' c s'' → t s c s''
  pub stop_t : (s s' : St F) → r s 1 s' → t s 1 s'
  pub denied_r : (s : St F) → r s 1 (record s { res = count_denied s.res })
  pub stat_r : (s : St F) → r s 1 (record s { res = count_err (codes "stat") s.res })
  pub lookup_r :
      (s : St F) (pid ticks : ℕ) → r s 0 (record s { states = (lookup_state s.states pid ticks).1 })
  pub ignored_t :
      (s : St F) (pid : ℕ)
      → t s 1 (record s { states = touch s.states pid; res = count_ignored s.res })
  pub put_t :
      (s : St F) (pid : ℕ) (cur : PidState F) → t s 0 (record s { states = put s.states pid cur })

module _ {F : Type 0} (r : Rel F) (rules : StepRules r) where
  Keeps-pure : {A : Type 0} (a : A) → Keeps r (pure a)
  Keeps-pure a = record { at = rules.refl_r }

  Keeps-vanished : {A : Type 0} → Keeps {A = A} r (stop count_vanished)
  Keeps-vanished = record { at = rules.vanished_r }

  Keeps-note :
      {A : Type 0} (file : Bytes) (a : A) → eqb file (codes "stat") ≡ false → Keeps r (note file a)
  Keeps-note file a h = record { at = λ s. rules.noted_r s file h }

  Keeps-if :
      {A : Type 0} (b : Bool) (m n : Step F A)
      → Keeps r m
      → Keeps r n
      → Keeps r (if b then m else n)
  Keeps-if true m n h k = h
  Keeps-if false m n h k = k

  module _ {R M : Type 0} (env : Env F R M) (pid : ℕ) where
    cmdline_result-Keeps : (x : Result (List Bytes)) → Keeps r (cmdline_result env pid x)
    unfolding cmdline_result eqb
    cmdline_result-Keeps (ok cmdline) = Keeps-pure _
    cmdline_result-Keeps (err e) = Keeps-if _ _ _ Keeps-vanished (Keeps-note _ _ refl)

    pub cmdline_step-Keeps : (prev : Option (PidState F)) → Keeps r (cmdline_step env pid prev)
    unfolding cmdline_step
    cmdline_step-Keeps prev = Keeps-if _ _ _ (cmdline_result-Keeps _) (Keeps-pure _)

    status_ok-Keeps :
        (uid : ℕ) (user : Bytes) (status : Status)
        → Keeps r (status_result env pid uid user (ok status))
    unfolding status_result
    status_ok-Keeps uid (c ∷ user) status = record { at = rules.refl_r }
    status_ok-Keeps uid [] status = elim (Bool-cases env.config.naming.resolve_users) [
      | inl on ↦ rw (on, status_result, resolve_user) (record { at = λ s. rules.users_r s _ })
      | inr off ↦ rw (off, status_result, resolve_user) (record { at = rules.refl_r })
    ]

    status_result-Keeps :
        (uid : ℕ) (user : Bytes) (x : Result Status) → Keeps r (status_result env pid uid user x)
    unfolding status_result eqb
    status_result-Keeps uid user (ok status) = status_ok-Keeps uid user status
    status_result-Keeps uid user (err e) = elim (Bool-cases (is_vanished e)) [
      | inl gone ↦ record { at = λ s. rw (gone, status_result) (rules.vanished_r s) }
      | inr other ↦ record {
        at = λ s. rw (other, status_result) (rules.noted_r s (codes "status") refl);
      }
    ]

    pub status_step-Keeps : (prev : Option (PidState F)) → Keeps r (status_step env pid prev)
    unfolding status_step
    status_step-Keeps prev = Keeps-if _ _ _ (status_result-Keeps _ _ _) (Keeps-pure _)

    pub statm_result-Keeps : (p : Process F) (x : Result Statm) → Keeps r (statm_result env pid p x)
    unfolding statm_result eqb
    statm_result-Keeps p (ok sm) = Keeps-pure _
    statm_result-Keeps p (err e) = Keeps-if _ _ _ Keeps-vanished (Keeps-note _ _ refl)

    -- The handler of a read that may be denied: a vanished process is counted, and any other error is
    -- noted, or not.
    Keeps-handler :
        {A : Type 0} (gone noted : Bool) (file : Bytes) (a : A)
        → eqb file (codes "stat") ≡ false
        → Keeps r (if gone then stop count_vanished else if noted then note file a else pure a)
    Keeps-handler gone noted file a h =
        Keeps-if _ _ _ Keeps-vanished (Keeps-if _ _ _ (Keeps-note file a h) (Keeps-pure a))

    io_result-Keeps : (x : Result Io) → Keeps r (io_result env pid x)
    unfolding io_result eqb
    io_result-Keeps (ok io) = Keeps-pure _
    io_result-Keeps (err e) = Keeps-handler _ _ _ _ refl

    pub io_step-Keeps : Keeps r (io_step env pid)
    unfolding io_step
    io_step-Keeps = Keeps-if _ _ _ (io_result-Keeps _) (Keeps-pure _)

    fds_result-Keeps : (p : Process F) (x : Result ℕ) → Keeps r (fds_result env pid p x)
    unfolding fds_result eqb
    fds_result-Keeps p (ok fds) = Keeps-pure _
    fds_result-Keeps p (err e) = Keeps-handler _ _ _ _ refl

    pub fds_step-Keeps :
        (p : Process F) (prev : Option (PidState F)) → Keeps r (fds_step env pid p prev)
    unfolding fds_step
    fds_step-Keeps p prev = Keeps-if _ _ _ (fds_result-Keeps p _) (Keeps-pure _)

    smaps_result-Keeps : (p : Process F) (x : Result Smaps) → Keeps r (smaps_result env pid p x)
    unfolding smaps_result eqb
    smaps_result-Keeps p (ok sm) = Keeps-pure _
    smaps_result-Keeps p (err e) = Keeps-handler _ _ _ _ refl

    pub smaps_step-Keeps :
        (p : Process F) (prev : Option (PidState F)) → Keeps r (smaps_step env pid p prev)
    unfolding smaps_step
    smaps_step-Keeps p prev =
        Keeps-if (not env.config.scan.read_smaps) _ _ (Keeps-pure p)
          (Keeps-if env.do_smaps _ _ (smaps_result-Keeps p _) (Keeps-pure _))

module _ {F : Type 0} (r t : Rel F) (rules : Rules r t) where
  open rules use {steps}

  continue-r :
      {A B : Type 0} (f : A → Step F B) (s s' : St F) (o : Option A)
      → r s (cost o) s'
      → ((a : A) → Keeps t (f a))
      → t s (cost (continue o f s').0) (continue o f s').1
  continue-r f s s' none h k = rules.stop_t s s' h
  continue-r f s s' (some a) h k = rules.trans_t _ s s' _ h ((k a).at s')

  -- A step that keeps `r`, with a rest that keeps `t`.
  Keeps-bind :
      {A B : Type 0} {m : Step F A} {f : A → Step F B}
      → Keeps r m
      → ((a : A) → Keeps t (f a))
      → Keeps t (m >>= f)
  unfolding ◌>>=◌
  Keeps-bind {m = m} {f = f} h k = record { at = λ s. continue-r f s (m s).1 (m s).0 (h.at s) k }

  module _ {R M : Type 0} (env : Env F R M) (pid : ℕ) where
    stat_result-Keeps : (x : Result Stat) → Keeps r (stat_result env pid x)
    unfolding stat_result
    stat_result-Keeps (ok st) = Keeps-pure r steps st
    stat_result-Keeps (err e) = Keeps-if r steps (is_vanished e) _ _ (Keeps-vanished r steps) (
        Keeps-if r steps (is_denied e) (stop count_denied) (stop (count_err (codes "stat")))
          (record { at = rules.denied_r }) (record { at = rules.stat_r }))

    lookup_step-Keeps : (st : Stat) → Keeps r (lookup_step env pid st)
    unfolding lookup_step
    lookup_step-Keeps st = record { at = λ s. rules.lookup_r s pid st.start_ticks }

    finish-Keeps :
        (st : Stat) (prev : Option (PidState F)) (status : Option Status) (io : Option Io)
        (p : Process F)
        → Keeps t (finish env pid st prev status io p)
    unfolding finish put_step
    finish-Keeps st prev status io p = record { at = λ s. rules.put_t s pid _ }

    read_kept-Keeps :
        (st : Stat) (prev : Option (PidState F)) (cmdline : List Bytes)
        (owner : ℕ × Bytes × Option Status)
        → Keeps t (read_kept env pid st prev cmdline owner)
    unfolding read_kept statm_step
    read_kept-Keeps st prev cmdline (uid, user, status) =
        Keeps-bind (statm_result-Keeps r steps env pid _ _) λ p.
          Keeps-bind (io_step-Keeps r steps env pid) λ io.
            Keeps-bind (fds_step-Keeps r steps env pid _ prev) λ p'.
              Keeps-bind (smaps_step-Keeps r steps env pid p' prev)
                λ p''. finish-Keeps st prev status io p''

    filter_step-Keeps :
        {A : Type 0} (i : Filter.Input) (f : Unit {0} → Step F A)
        → Keeps t (f tt)
        → Keeps t (filter_step env pid i >>= f)
    unfolding filter_step ◌>>=◌
    filter_step-Keeps i f h = elim (Bool-cases (keep env.regexp env.filter i).0) [
      | inl kept ↦ record { at = λ s. rw (kept, filter_step) (h.at s) }
      | inr dropped ↦ record { at = λ s. rw (dropped, filter_step) (rules.ignored_t s pid) }
    ]

    pub read_process-Keeps : Keeps t (read_process env pid)
    unfolding read_process stat_step
    read_process-Keeps = Keeps-bind (stat_result-Keeps _) λ st.
        Keeps-bind (lookup_step-Keeps st) λ prev.
          Keeps-bind (cmdline_step-Keeps r steps env pid prev) λ cmdline.
            Keeps-bind (status_step-Keeps r steps env pid prev)
              λ owner. filter_step-Keeps _ _ (read_kept-Keeps st prev cmdline.0 owner)

-- ===== src/Scan/Returned.antt =====
-- What readProcess returns, in terms of the files that it read: a returned process is the difference
-- of its new state against the state that the map held under the same identity.
use cpu_process_exporter.Base.{
  ℕ, ◌≡◌, refl, ap, ◌∙◌, true, false, List, [], ◌∷◌, Option, none, some, Bytes, arith, ◌||◌,
  is_empty, inl, inr,
}
use cpu_process_exporter.Filter
use cpu_process_exporter.Filter.{keep}
use cpu_process_exporter.Procfs.Error.{Result, ok, err}
use cpu_process_exporter.Procfs.Io.{Io, read_io}
use cpu_process_exporter.Procfs.Stat.{Stat, read_stat}
use cpu_process_exporter.Procfs.Statm.{read_statm}
use cpu_process_exporter.Procfs.Status.{Status, read_status}
use cpu_process_exporter.StateMap.{PidState, lookup_state, put}
use cpu_process_exporter.Scan.State.{Process, St, Env, Step, pure}
use cpu_process_exporter.Scan.Steps.{
  stat_step, stat_result, status_result, resolve_user, lookup_step, cmdline_step, status_step,
  filter_step, filter_input, group_name, new_process, is_there, cached_uid, cached_user,
}
use cpu_process_exporter.Scan.Readings.{
  statm_step, io_step, io_result, fds_step, smaps_step, is_read, new_state, with_deltas, put_step,
}
use cpu_process_exporter.Scan.Read.{finish, read_kept, read_process}
use cpu_process_exporter.Scan.Rule.{
  Rel, StepRules, cmdline_step-Keeps, status_step-Keeps, statm_result-Keeps, io_step-Keeps,
  fds_step-Keeps, smaps_step-Keeps,
}
use cpu_process_exporter.Scan.SameProcess.{
  >>=-eq-some, if-eq-some, fds_step-SameProcess, smaps_step-SameProcess, statm_result-SameProcess,
}

abbrev Still : {F : Type 0} → Rel F
Still s n s' = s'.states ≡ s.states

still : {F : Type 0} → StepRules {F = F} Still
still = record {
  refl_r = λ s. refl;
  vanished_r = λ s. refl;
  noted_r = λ s file h. refl;
  users_r = λ s users. refl;
}

module _ {F R M : Type 0} (env : Env F R M) (pid : ℕ) where
  io_result-read :
      (x : Result Io) (io : Io) (s : St F) → (io_result env pid x s).0 ≡ some (some io) → x ≡ ok io
  unfolding io_result
  io_result-read (ok io') io s h = ground arith
  io_result-read (err e) io s h = ground arith

  -- The counters that io_step returns are those of a read that succeeded.
  io_step-read :
      (io : Io) (s : St F) → (io_step env pid s).0 ≡ some (some io) → read_io env.world pid ≡ ok io
  unfolding io_step
  io_step-read io s h =
      elim (if-eq-some env.config.scan.read_io (io_result env pid (read_io env.world pid)) _ s h) [
        | inl tried ↦ io_result-read _ io s tried
        | inr skipped ↦ cc
      ]

  status_result-read :
      (uid uid' : ℕ) (user user' : Bytes) (x : Result Status) (status : Status) (s : St F)
      → (status_result env pid uid user x s).0 ≡ some (uid', user', some status)
      → x ≡ ok status
  unfolding status_result resolve_user
  status_result-read uid uid' (c ∷ user) user' (ok st) status s h = ground arith
  status_result-read uid uid' [] user' (ok st) status s h = ground arith
  status_result-read uid uid' user user' (err e) status s h = ground arith

  status_step-read :
      (prev : Option (PidState F)) (uid : ℕ) (user : Bytes) (status : Status) (s : St F)
      → (status_step env pid prev s).0 ≡ some (uid, user, some status)
      → read_status env.world pid ≡ ok status
  unfolding status_step
  status_step-read prev uid user status s h =
      let cached : Step F (ℕ × Bytes × Option Status) =
        pure (cached_uid env pid prev, cached_user env pid prev, none) in
      elim (if-eq-some (env.config.scan.read_status || is_empty (cached_user env pid prev))
        (status_result env pid (cached_uid env pid prev) (cached_user env pid prev)
          (read_status env.world pid))
        cached s h) [
          | inl tried ↦
              status_result-read (cached_uid env pid prev) uid (cached_user env pid prev) user _
                status s tried
          | inr skipped ↦ cc
        ]

  stat_result-ok :
      (x : Result Stat) (st : Stat) (s : St F)
      → (stat_result env pid x s).0 ≡ some st
      → (x ≡ ok st) × ((stat_result env pid x s).1 ≡ s)
  unfolding stat_result
  stat_result-ok (ok st') st s h = ground arith
  stat_result-ok (err e) st s h = ground arith

  filter_step-kept :
      (i : Filter.Input) (s : St F) (u : Unit {0})
      → (filter_step env pid i s).0 ≡ some u
      → ((keep env.regexp env.filter i).0 ≡ true) × ((filter_step env pid i s).1 ≡ s)
  unfolding filter_step
  filter_step-kept i s u h = ground arith

  -- What `read_kept` leaves behind: `q` is the process before its deltas.
  pub record Kept (st : Stat) (prev : Option (PidState F)) (status : Option Status) (s : St F)
      (p : Process F) (s' : St F) : Type 0 where
    pub io : Option Io
    pub q : Process F
    pub io_read : (i : Io) → io ≡ some i → read_io env.world pid ≡ ok i
    pub q_pid : q.pid ≡ pid
    pub q_ticks : q.start_ticks ≡ st.start_ticks
    pub q_deltas : q.have_deltas ≡ false
    pub q_status : q.have_status ≡ is_there env pid status
    pub q_io : q.have_io ≡ is_read io
    pub p_is : p ≡ with_deltas q (new_state st q status io) prev
    pub states_is : s'.states ≡ put s.states pid (new_state st q status io)

  finish-eq :
      (st : Stat) (prev : Option (PidState F)) (status : Option Status) (io : Option Io)
      (q : Process F) (s : St F) (p : Process F) (s' : St F)
      → finish env pid st prev status io q s ≡ (some p, s')
      → (p ≡ with_deltas q (new_state st q status io) prev)
        × (s'.states ≡ put s.states pid (new_state st q status io))
  unfolding finish put_step
  finish-eq st prev status io q s p s' h = ground arith

  read_kept-Kept :
      (st : Stat) (prev : Option (PidState F)) (cmdline : List Bytes) (uid : ℕ) (user : Bytes)
      (status : Option Status) (s : St F) (p : Process F) (s' : St F)
      → read_kept env pid st prev cmdline (uid, user, status) s ≡ (some p, s')
      → Kept st prev status s p s'
  unfolding read_kept statm_step new_process
  read_kept-Kept st prev cmdline uid user status s p s' h =
      let p0 = new_process env pid st (group_name env pid st prev cmdline) uid user status in
      let (p1, e1, h1) = >>=-eq-some (statm_step env pid p0) _ s h in
      let s1 = (statm_step env pid p0 s).1 in
      let (io, e2, h2) = >>=-eq-some (io_step env pid) _ s1 h1 in
      let s2 = (io_step env pid s1).1 in
      let p2 = record p1 { have_io = is_read io } in
      let (p3, e3, h3) = >>=-eq-some (fds_step env pid p2 prev) _ s2 h2 in
      let s3 = (fds_step env pid p2 prev s2).1 in
      let (q, e4, h4) = >>=-eq-some (smaps_step env pid p3 prev) _ s3 h3 in
      let s4 = (smaps_step env pid p3 prev s3).1 in
      let (p_is, put_is) = finish-eq st prev status io q s4 p s' h4 in
      let still4 : s4.states ≡ s.states =
        (smaps_step-Keeps Still still env pid p3 prev).at s3
        ∙ (fds_step-Keeps Still still env pid p2 prev).at s2
        ∙ (io_step-Keeps Still still env pid).at s1
        ∙ (statm_result-Keeps Still still env pid p0 (read_statm env.world pid)).at s in
      let k1 = statm_result-SameProcess env pid p0 p1 (read_statm env.world pid) s e1 in
      let k3 = fds_step-SameProcess env pid p2 p3 prev s2 e3 in
      let k4 = smaps_step-SameProcess env pid p3 q prev s3 e4 in
      record {
        io = io;
        q = q;
        io_read = λ i is. io_step-read i s1 (e2 ∙ ap some is);
        q_pid = k4.same_pid ∙ k3.same_pid ∙ k1.same_pid;
        q_ticks = k4.same_ticks ∙ k3.same_ticks ∙ k1.same_ticks;
        q_deltas = k4.same_deltas ∙ k3.same_deltas ∙ k1.same_deltas;
        q_status = k4.same_status ∙ k3.same_status ∙ k1.same_status;
        q_io = k4.same_io ∙ k3.same_io;
        p_is = p_is;
        states_is = put_is ∙ ap (λ m. put m pid (new_state st q status io)) still4;
      }

  -- A returned process, from the state `s` before it was read.
  pub record Read (s : St F) (p : Process F) (s' : St F) : Type 0 where
    pub st : Stat
    pub status : Option Status
    pub between : St F
    pub stat_read : read_stat env.world pid ≡ ok st
    pub status_read : (x : Status) → status ≡ some x → read_status env.world pid ≡ ok x
    pub prev : Option (PidState F)
    pub prev_is : prev ≡ (lookup_state s.states pid st.start_ticks).0
    pub found : between.states ≡ (lookup_state s.states pid st.start_ticks).1
    pub kept : Kept st prev status between p s'

  lookup_step-eq :
      (st : Stat) (s : St F) (prev : Option (PidState F))
      → (lookup_step env pid st s).0 ≡ some prev
      → (prev ≡ (lookup_state s.states pid st.start_ticks).0)
        × ((lookup_step env pid st s).1.states ≡ (lookup_state s.states pid st.start_ticks).1)
  unfolding lookup_step
  lookup_step-eq st s prev h = ground arith

  stat_step-ok :
      (st : Stat) (s : St F)
      → (stat_step env pid s).0 ≡ some st
      → (read_stat env.world pid ≡ ok st) × ((stat_step env pid s).1 ≡ s)
  unfolding stat_step
  stat_step-ok st s h = stat_result-ok (read_stat env.world pid) st s h

  pub read_process-Read :
      (s : St F) (p : Process F) (s' : St F) → read_process env pid s ≡ (some p, s') → Read s p s'
  unfolding read_process
  read_process-Read s p s' h =
      let (st, e0, h0) = >>=-eq-some (stat_step env pid) _ s h in
      let s0 = (stat_step env pid s).1 in
      let (stat_is, s0_is) = stat_step-ok st s e0 in
      let (prev, e1, h1) = >>=-eq-some (lookup_step env pid st) _ s0 h0 in
      let s1 = (lookup_step env pid st s0).1 in
      let (prev_is, s1_is) = lookup_step-eq st s0 prev e1 in
      let (cmdline, e2, h2) = >>=-eq-some (cmdline_step env pid prev) _ s1 h1 in
      let s2 = (cmdline_step env pid prev s1).1 in
      let (owner, e3, h3) = >>=-eq-some (status_step env pid prev) _ s2 h2 in
      let s3 = (status_step env pid prev s2).1 in
      let (u, e4, h4) =
        >>=-eq-some (filter_step env pid (filter_input st cmdline owner.1)) _ s3 h3 in
      let (passed, s4_is) = filter_step-kept (filter_input st cmdline owner.1) s3 u e4 in
      let s4 = (filter_step env pid (filter_input st cmdline owner.1) s3).1 in
      let found : s4.states ≡ (lookup_state s.states pid st.start_ticks).1 =
        ap (λ x. x.states) s4_is
        ∙ (status_step-Keeps Still still env pid prev).at s2
        ∙ (cmdline_step-Keeps Still still env pid prev).at s1
        ∙ s1_is
        ∙ ap (λ x. (lookup_state x.states pid st.start_ticks).1) s0_is in
      record {
        st = st;
        status = owner.2;
        between = s4;
        stat_read = stat_is;
        status_read = λ x is.
            status_step-read prev owner.0 owner.1 x s2
              (e3 ∙ ap (λ o. some (owner.0, owner.1, o)) is);
        prev = prev;
        prev_is = prev_is ∙ ap (λ x. (lookup_state x.states pid st.start_ticks).0) s0_is;
        found = found;
        kept = read_kept-Kept st prev cmdline.0 owner.0 owner.1 owner.2 s4 p s' h4;
      }

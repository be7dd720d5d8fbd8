-- ===== src/Scan/Deltas.antt =====
-- The counter deltas of readProcess: what they are differences of, and when there are none.
use cpu_process_exporter.Base.{
  ℕ, ◌+◌, ◌≤◌, ◌<◌, ◌≡◌, ◌≢◌, refl, sym, ap, subst, ◌∙◌, true, false, Option, none, some, lookup,
  nat_eq, arith, ◌==◌, if◌then◌else◌,
}
use cpu_process_exporter.Procfs.Error.{ok}
use cpu_process_exporter.Procfs.Io.{Io, read_io}
use cpu_process_exporter.Procfs.Stat.{Stat, read_stat}
use cpu_process_exporter.StateMap.{PidState, StateMap, delta}
use cpu_process_exporter.StateMap.Identity.{
  IsAbsent, lookup_state-IsAbsent, lookup_state_same, lookup_state_others, lookup_state-gen,
  lookup-put,
}
use cpu_process_exporter.Scan.State.{Process, St, Env}
use cpu_process_exporter.Scan.Read.{read_process}
use cpu_process_exporter.Scan.Readings.{is_read, new_state, with_deltas, compute_deltas, io_count}
use cpu_process_exporter.Scan.Returned.{Read, read_process-Read}

module _ {F : Type 0} where
  with_deltas-ticks :
      (q : Process F) (cur : PidState F) (prev : Option (PidState F))
      → (with_deltas q cur prev).start_ticks ≡ q.start_ticks
  unfolding with_deltas
  with_deltas-ticks q cur none = refl
  with_deltas-ticks q cur (some prev) = refl

  with_deltas-io :
      (q : Process F) (cur : PidState F) (prev : Option (PidState F))
      → (with_deltas q cur prev).have_io ≡ q.have_io
  unfolding with_deltas
  with_deltas-io q cur none = refl
  with_deltas-io q cur (some prev) = refl

  with_deltas-none :
      (q : Process F) (cur : PidState F) → (with_deltas q cur none).have_deltas ≡ q.have_deltas
  unfolding with_deltas
  with_deltas-none q cur = refl

io_count-read : (f : Io → ℕ) (io : Option Io) → is_read io ≡ false → io_count f io ≡ 0
io_count-read f none h = refl
io_count-read f (some io) h = cc

is_read-some : (io : Option Io) → is_read io ≡ true → (i : Io) × (io ≡ some i)
is_read-some none h = cc
is_read-some (some i) h = (i, refl)

-- `d` is what a counter grew by from `prev` to `now`, and 0 where it went backwards.
abbrev pub IsDifference : ℕ → ℕ → ℕ → Type 0
IsDifference d now prev = (prev ≤ now → d + prev ≡ now) × (now < prev → d ≡ 0)

delta-IsDifference : (d now prev : ℕ) → d ≡ delta now prev → IsDifference d now prev
unfolding delta
delta-IsDifference d now prev is = (λ h. ground (arith, is), λ h. ground (arith, is))

IsDifference-zero : (d now prev : ℕ) → prev ≡ 0 → IsDifference d now prev → d ≡ now
IsDifference-zero d now prev start h = ground (arith, start, h)

module _ {F R M : Type 0} (env : Env F R M) (pid : ℕ) (s : St F) (p : Process F) (s' : St F)
    (returned : read_process env pid s ≡ (some p, s')) where
  reading : Read env pid s p s'
  reading = read_process-Read env pid s p s' returned

  -- The new state that `Put` was given.
  current : PidState F
  current = new_state reading.st reading.kept.q reading.status reading.kept.io

  ticks_read : p.start_ticks ≡ reading.st.start_ticks
  ticks_read =
      ap (λ (x : Process F). x.start_ticks) reading.kept.p_is
      ∙ with_deltas-ticks reading.kept.q _ reading.prev
      ∙ reading.kept.q_ticks

  io_is : p.have_io ≡ is_read reading.kept.io
  io_is =
      ap (λ (x : Process F). x.have_io) reading.kept.p_is
      ∙ with_deltas-io reading.kept.q _ reading.prev
      ∙ reading.kept.q_io

  stamped_entry : PidState F
  stamped_entry = record current { generation = reading.between.states.gen }

  stored :
      (j : ℕ)
      → lookup j s'.states.m
        ≡ (if pid == j then some stamped_entry else lookup j reading.between.states.m)
  unfolding stamped_entry current
  stored j =
      ap (λ (x : StateMap F). lookup j x.m) reading.kept.states_is
      ∙ lookup-put reading.between.states pid j current

  -- A process whose PID the map does not hold under its start time carries no deltas: neither one
  -- seen for the first time, nor one that took over the PID of another.
  pub first_reading : IsAbsent (lookup pid s.states.m) p.start_ticks → p.have_deltas ≡ false
  unfolding current
  first_reading absent =
      let none_is : reading.prev ≡ none =
        reading.prev_is
        ∙ lookup_state-IsAbsent s.states pid reading.st.start_ticks
            (subst (IsAbsent (lookup pid s.states.m)) ticks_read absent) in
      ap (λ (x : Process F). x.have_deltas) reading.kept.p_is
      ∙ ap (λ o. (with_deltas reading.kept.q current o).have_deltas) none_is
      ∙ with_deltas-none reading.kept.q current
      ∙ reading.kept.q_deltas

  module _ (old : PidState F) (held : lookup pid s.states.m ≡ some old)
      (same : old.start_ticks ≡ p.start_ticks) where
    against_old : p ≡ with_deltas reading.kept.q current (some old)
    unfolding current
    against_old =
        reading.kept.p_is
        ∙ ap (with_deltas reading.kept.q current) (
            reading.prev_is
            ∙ lookup_state_same s.states pid reading.st.start_ticks old held (same ∙ ticks_read))

    stat_fields :
        (st : Stat)
        → read_stat env.world pid ≡ ok st
        → (p.have_deltas ≡ true)
          × (p.d_utime_ticks ≡ delta st.utime_ticks old.utime_ticks)
          × (p.d_stime_ticks ≡ delta st.stime_ticks old.stime_ticks)
          × (p.d_minor_faults ≡ delta st.minor_faults old.minor_faults)
          × (p.d_major_faults ≡ delta st.major_faults old.major_faults)
    unfolding with_deltas compute_deltas new_state current
    stat_fields st h = ground (arith, against_old, reading.stat_read)

    -- A returned process that the map holds under its PID and start time carries deltas, and those of
    -- the stat file are what its counters grew by against the ones held, 0 where a counter went
    -- backwards.
    pub stat_deltas :
        (st : Stat)
        → read_stat env.world pid ≡ ok st
        → (p.have_deltas ≡ true)
          × IsDifference p.d_utime_ticks st.utime_ticks old.utime_ticks
          × IsDifference p.d_stime_ticks st.stime_ticks old.stime_ticks
          × IsDifference p.d_minor_faults st.minor_faults old.minor_faults
          × IsDifference p.d_major_faults st.major_faults old.major_faults
    stat_deltas st h =
        let (on, utime, stime, minor, major) = stat_fields st h in
        (
          on,
          delta-IsDifference _ _ _ utime,
          delta-IsDifference _ _ _ stime,
          delta-IsDifference _ _ _ minor,
          delta-IsDifference _ _ _ major,
        )

    io_fields :
        (io : Io)
        → read_io env.world pid ≡ ok io
        → p.have_io ≡ true
        → (p.d_read_bytes ≡ delta io.read_bytes old.read_bytes)
          × (p.d_write_bytes ≡ delta io.write_bytes old.write_bytes)
    unfolding with_deltas compute_deltas new_state current
    io_fields io h on =
        let (i, is) = is_read-some reading.kept.io (sym io_is ∙ on) in
        ground (arith, against_old, is, reading.kept.io_read i is)

    -- The byte deltas of a returned process that the map holds under its PID and start time are what its
    -- io counters grew by against those held, 0 where a counter went backwards, where the io file was
    -- read.
    pub io_deltas :
        (io : Io)
        → read_io env.world pid ≡ ok io
        → p.have_io ≡ true
        → IsDifference p.d_read_bytes io.read_bytes old.read_bytes
          × IsDifference p.d_write_bytes io.write_bytes old.write_bytes
    io_deltas io h on =
        let (read, write) = io_fields io h on in
        (delta-IsDifference _ _ _ read, delta-IsDifference _ _ _ write)

  -- The state that readProcess leaves under the PID of a returned process: it is that of this
  -- process, stamped with the current generation, and holds the user and system time just read; where
  -- the io file was not read its byte counters are 0.
  pub recorded :
      (st : Stat)
      → read_stat env.world pid ≡ ok st
      → (cur : PidState F) × (lookup pid s'.states.m ≡ some cur)
        × (cur.start_ticks ≡ p.start_ticks)
        × (cur.generation ≡ s.states.gen)
        × (cur.utime_ticks ≡ st.utime_ticks)
        × (cur.stime_ticks ≡ st.stime_ticks)
        × (p.have_io ≡ false → cur.read_bytes ≡ 0)
        × (p.have_io ≡ false → cur.write_bytes ≡ 0)
  unfolding stamped_entry current new_state
  recorded st h = (
    stamped_entry,
    stored pid ∙ ground arith,
    sym ticks_read,
    ap (λ (x : StateMap F). x.gen) reading.found
        ∙ lookup_state-gen s.states pid reading.st.start_ticks,
    ground (arith, reading.stat_read),
    ground (arith, reading.stat_read),
    λ off. io_count-read (λ i. i.read_bytes) reading.kept.io (sym io_is ∙ off),
    λ off. io_count-read (λ i. i.write_bytes) reading.kept.io (sym io_is ∙ off),
  )

  -- The read of a returned process changes the state entry of no other PID.
  pub recorded_others : (j : ℕ) → pid ≢ j → lookup j s'.states.m ≡ lookup j s.states.m
  recorded_others j ne =
      let missed : (pid == j) ≡ false = ground arith in
      stored j
      ∙ rw missed (
          ap (λ (x : StateMap F). lookup j x.m) reading.found
          ∙ lookup_state_others s.states pid reading.st.start_ticks j ne)

-- A process whose io file could not be read in one scan and can in a later one, with its entry
-- unchanged between the two, reports all the bytes of its lifetime as the difference of the later scan:
-- the state of the first holds 0 for them.
pub unread_then_read :
    {F R M : Type 0} (env env' : Env F R M) (pid : ℕ) (s s' t t' : St F) (p q : Process F)
    (st : Stat) (io : Io)
    → read_process env pid s ≡ (some p, s')
    → read_stat env.world pid ≡ ok st
    → p.have_io ≡ false
    → lookup pid t.states.m ≡ lookup pid s'.states.m
    → read_process env' pid t ≡ (some q, t')
    → q.start_ticks ≡ p.start_ticks
    → read_io env'.world pid ≡ ok io
    → q.have_io ≡ true
    → (q.have_deltas ≡ true) × (q.d_read_bytes ≡ io.read_bytes) × (q.d_write_bytes ≡ io.write_bytes)
unread_then_read env env' pid s s' t t' p q st io first st_read off kept second same io_read on =
    let (cur, held, ticks, gen, ut, stt, rb, wb) = recorded env pid s p s' first st st_read in
    let again = reading env' pid t q t' second in
    let deltas =
      stat_deltas env' pid t q t' second cur (kept ∙ held) (ticks ∙ sym same) again.st
        again.stat_read in
    let (read, write) =
      io_deltas env' pid t q t' second cur (kept ∙ held) (ticks ∙ sym same) io io_read on in
    (deltas.0, IsDifference-zero _ _ _ (rb off) read, IsDifference-zero _ _ _ (wb off) write)

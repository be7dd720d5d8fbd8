-- ===== src/StateMap/Identity.antt =====
-- Lookup tells the processes that held a PID apart by their start times.
use cpu_process_exporter.Base.{
  ℕ, ◌≡◌, ◌≢◌, refl, Option, none, some, lookup, nat_eq, lookup-insert, lookup-delete, ◌==◌,
  if◌then◌else◌, arith,
}
use cpu_process_exporter.StateMap.{PidState, StateMap, lookup_state, lookup_entry, put}

module _ {F : Type 0} where
  -- The map holds no state of the process that started at `ticks`.
  abbrev pub IsAbsent : Option (PidState F) → ℕ → Type 0
  IsAbsent none ticks = Unit {0}
  IsAbsent (some st) ticks = st.start_ticks ≢ ticks

  lookup_entry-IsAbsent :
      (s : StateMap F) (pid ticks : ℕ) (o : Option (PidState F))
      → IsAbsent o ticks
      → (lookup_entry s pid ticks o).0 ≡ none
  unfolding lookup_entry
  lookup_entry-IsAbsent s pid ticks none h = refl
  lookup_entry-IsAbsent s pid ticks (some st) h = ground arith

  pub lookup_state-IsAbsent :
      (s : StateMap F) (pid ticks : ℕ)
      → IsAbsent (lookup pid s.m) ticks
      → (lookup_state s pid ticks).0 ≡ none
  unfolding lookup_state
  lookup_state-IsAbsent s pid ticks h = lookup_entry-IsAbsent s pid ticks (lookup pid s.m) h

  pub lookup_state_same :
      (s : StateMap F) (pid ticks : ℕ) (st : PidState F)
      → lookup pid s.m ≡ some st
      → st.start_ticks ≡ ticks
      → (lookup_state s pid ticks).0 ≡ some st
  unfolding lookup_state lookup_entry
  lookup_state_same s pid ticks st h e = rw h (ground arith)

  lookup_entry_others :
      (s : StateMap F) (pid ticks j : ℕ) (o : Option (PidState F))
      → pid ≢ j
      → lookup j (lookup_entry s pid ticks o).1.m ≡ lookup j s.m
  unfolding lookup_entry
  lookup_entry_others s pid ticks j none h = refl
  lookup_entry_others s pid ticks j (some st) h = ground (arith, lookup-delete pid j s.m)

  pub lookup_state_others :
      (s : StateMap F) (pid ticks j : ℕ)
      → pid ≢ j
      → lookup j (lookup_state s pid ticks).1.m ≡ lookup j s.m
  unfolding lookup_state
  lookup_state_others s pid ticks j h = lookup_entry_others s pid ticks j (lookup pid s.m) h

  lookup_entry-gen :
      (s : StateMap F) (pid ticks : ℕ) (o : Option (PidState F))
      → (lookup_entry s pid ticks o).1.gen ≡ s.gen
  unfolding lookup_entry
  lookup_entry-gen s pid ticks none = refl
  lookup_entry-gen s pid ticks (some st) = ground arith

  pub lookup_state-gen : (s : StateMap F) (pid ticks : ℕ) → (lookup_state s pid ticks).1.gen ≡ s.gen
  unfolding lookup_state
  lookup_state-gen s pid ticks = lookup_entry-gen s pid ticks (lookup pid s.m)

  -- What Put stores is found again, stamped, and every other entry is as before.
  pub lookup-put :
      (s : StateMap F) (pid j : ℕ) (st : PidState F)
      → lookup j (put s pid st).m
        ≡ (if pid == j then some (record st { generation = s.gen }) else lookup j s.m)
  unfolding put
  lookup-put s pid j st = lookup-insert pid j (record st { generation = s.gen }) s.m

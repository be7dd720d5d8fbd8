-- ===== src/StateMap.antt =====
-- internal/scan/state.go: the memory between scans, one entry to a PID. A PID is positive (ListPIDs
-- drops the others), so it is a number here. The map is an association list; its order, which Go
-- leaves open, is that of insertion, and no theorem depends on it.
pub mod Bounds
pub mod Identity
use cpu_process_exporter.Base.{
  ℕ, ◌+◌, ◌-◌, Bool, not, Option, none, some, List, [], ◌∷◌, Bytes, lookup, insert, delete, nat_eq,
  ltb, ◌==◌, if◌then◌else◌, length, add64,
}
use cpu_process_exporter.Base.Int.{ℤ}

pub record PidState (F : Type 0) : Type 0 where
  pub start_ticks : ℕ
  pub generation : ℕ
  pub utime_ticks : ℕ
  pub stime_ticks : ℕ
  pub minor_faults : ℕ
  pub major_faults : ℕ
  pub vol_ctx_sw : ℕ
  pub invol_ctx_sw : ℕ
  pub read_bytes : ℕ
  pub write_bytes : ℕ
  pub name : Bytes
  pub user : Bytes
  pub uid : ℕ
  pub open_fds : ℤ
  pub max_fds : ℤ
  pub fd_ratio : F
  pub have_fds : Bool
  pub pss_bytes : ℕ
  pub swap_pss_bytes : ℕ
  pub have_pss : Bool

pub record StateMap (F : Type 0) : Type 0 where
  pub m : List (ℕ × PidState F)
  pub gen : ℕ

module _ {F : Type 0} where
  unfoldable pub new_state_map : StateMap F
  new_state_map = record { m = []; gen = 0 }

  -- The counter is a uint64; the new value is also the result.
  unfoldable pub next_generation : StateMap F → StateMap F
  next_generation s = record s { gen = add64 s.gen 1 }

  -- What `Lookup` makes of the entry that the map holds: a mismatch of start times deletes it.
  unfoldable pub lookup_entry :
      StateMap F → ℕ → ℕ → Option (PidState F) → Option (PidState F) × StateMap F
  lookup_entry s pid start_ticks none = (none, s)
  lookup_entry s pid start_ticks (some st) =
      if not (st.start_ticks == start_ticks)
      then (none, record s { m = delete pid s.m })
      else (some st, s)

  unfoldable pub lookup_state : StateMap F → ℕ → ℕ → Option (PidState F) × StateMap F
  unfolding lookup_entry
  lookup_state s pid start_ticks = lookup_entry s pid start_ticks (lookup pid s.m)

  unfoldable pub put : StateMap F → ℕ → PidState F → StateMap F
  put s pid st = record s { m = insert pid (record st { generation = s.gen }) s.m }

  unfoldable pub touch_entry : StateMap F → ℕ → Option (PidState F) → StateMap F
  touch_entry s pid none = s
  touch_entry s pid (some st) = record s { m = insert pid (record st { generation = s.gen }) s.m }

  unfoldable pub touch : StateMap F → ℕ → StateMap F
  unfolding touch_entry
  touch s pid = touch_entry s pid (lookup pid s.m)

  -- The loop of `Prune`: the entries that stay, and how many went.
  unfoldable pub prune_entries : ℕ → List (ℕ × PidState F) → List (ℕ × PidState F) × ℕ
  prune_entries gen [] = ([], 0)
  prune_entries gen ((pid, st) ∷ m) =
      let (kept, n) = prune_entries gen m in
      if ltb st.generation gen then (kept, n + 1) else ((pid, st) ∷ kept, n)

  unfoldable pub prune : StateMap F → ℕ × StateMap F
  unfolding prune_entries
  prune s = let (kept, n) = prune_entries s.gen s.m in (n, record s { m = kept })

  unfoldable pub len : StateMap F → ℕ
  len s = length s.m

-- now minus previous on uint64, clamped at zero. The branch that subtracts has now ≥ prev.
unfoldable pub delta : ℕ → ℕ → ℕ
delta now prev = if ltb now prev then 0 else now - prev

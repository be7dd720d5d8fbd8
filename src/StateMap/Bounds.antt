-- ===== src/StateMap/Bounds.antt =====
-- What bounds the state map: how many entries carry a generation, and what Prune keeps.
use cpu_process_exporter.Base.{
  ℕ, suc, ◌+◌, ◌≤◌, ◌<◌, ◌≡◌, refl, List, [], ◌∷◌, Option, none, some, insert, delete, lookup,
  nat_eq, ◌==◌, if◌then◌else◌, length, arith, Bool-cases, inl, inr, u64_mod, add64-eq_of_lt, sym,
  subst, ◌∙◌, All,
}
use native.Mathlib.Numerals.{add-one}
use cpu_process_exporter.StateMap.{
  PidState, StateMap, next_generation, lookup_state, lookup_entry, put, touch, touch_entry,
  prune_entries, prune, len,
}

module _ {F : Type 0} where
  -- No entry is of a later generation than `g`.
  abbrev pub NotAfter : ℕ → List (ℕ × PidState F) → Type 0
  NotAfter g [] = Unit {0}
  NotAfter g ((pid, st) ∷ m) = (st.generation ≤ g) × NotAfter g m

  -- How many entries are of generation `g`.
  abbrev pub stamped : ℕ → List (ℕ × PidState F) → ℕ
  stamped g [] = 0
  stamped g ((pid, st) ∷ m) = (if st.generation == g then 1 else 0) + stamped g m

  NotAfter-delete :
      (g pid : ℕ) (m : List (ℕ × PidState F)) → NotAfter g m → NotAfter g (delete pid m)
  unfolding delete
  NotAfter-delete g pid [] h = tt
  NotAfter-delete g pid ((k, st) ∷ m) h = ground (arith, NotAfter-delete g pid m h.1)

  stamped-delete-le :
      (g pid : ℕ) (m : List (ℕ × PidState F)) → stamped g (delete pid m) ≤ stamped g m
  unfolding delete
  stamped-delete-le g pid [] = omega arith
  stamped-delete-le g pid ((k, st) ∷ m) = ground (arith, stamped-delete-le g pid m)

  NotAfter-insert :
      (g pid : ℕ) (st : PidState F) (m : List (ℕ × PidState F))
      → st.generation ≤ g
      → NotAfter g m
      → NotAfter g (insert pid st m)
  unfolding insert
  NotAfter-insert g pid st [] b h = (b, tt)
  NotAfter-insert g pid st ((k, old) ∷ m) b h = ground (arith, NotAfter-insert g pid st m b h.1)

  stamped-insert-le :
      (g pid : ℕ) (st : PidState F) (m : List (ℕ × PidState F))
      → stamped g (insert pid st m) ≤ suc (stamped g m)
  unfolding insert
  stamped-insert-le g pid st [] = ground arith
  stamped-insert-le g pid st ((k, old) ∷ m) = ground (arith, stamped-insert-le g pid st m)

  stamped-NotAfter : (g : ℕ) (m : List (ℕ × PidState F)) → NotAfter g m → stamped (suc g) m ≡ 0
  stamped-NotAfter g [] h = refl
  stamped-NotAfter g ((pid, st) ∷ m) h = ground (arith, stamped-NotAfter g m h.1)

  NotAfter-suc : (g : ℕ) (m : List (ℕ × PidState F)) → NotAfter g m → NotAfter (suc g) m
  NotAfter-suc g [] h = tt
  NotAfter-suc g ((pid, st) ∷ m) h = (omega arith, NotAfter-suc g m h.1)

  -- From `s` to `s'`, at most `n` more entries are of the current generation, which stays.
  pub record Grows (s : StateMap F) (n : ℕ) (s' : StateMap F) : Type 0 where
    pub same_gen : s'.gen ≡ s.gen
    pub not_after : NotAfter s.gen s.m → NotAfter s.gen s'.m
    pub more : stamped s.gen s'.m ≤ stamped s.gen s.m + n

  pub Grows-refl : (s : StateMap F) → Grows s 0 s
  Grows-refl s = record { same_gen = refl; not_after = λ h. h; more = omega arith }

  pub Grows-trans :
      (a b : ℕ) (s s' s'' : StateMap F) → Grows s a s' → Grows s' b s'' → Grows s (a + b) s''
  Grows-trans a b s s' s'' h k =
      let more' : stamped s.gen s''.m ≤ stamped s.gen s'.m + b =
        subst (λ g. stamped g s''.m ≤ stamped g s'.m + b) h.same_gen k.more in
      record {
        same_gen = k.same_gen ∙ h.same_gen;
        not_after = λ old.
            subst (λ g. NotAfter g s''.m) h.same_gen
              (k.not_after (subst (λ g. NotAfter g s'.m) (sym h.same_gen) (h.not_after old)));
        more = omega (arith, h.more);
      }

  pub Grows-mono : (s s' : StateMap F) → Grows s 0 s' → Grows s 1 s'
  Grows-mono s s' h = record {
    same_gen = h.same_gen;
    not_after = h.not_after;
    more = omega (arith, h.more);
  }

  Grows-delete : (s : StateMap F) (pid : ℕ) → Grows s 0 (record s { m = delete pid s.m })
  Grows-delete s pid = record {
    same_gen = refl;
    not_after = NotAfter-delete s.gen pid s.m;
    more = omega (arith, stamped-delete-le s.gen pid s.m);
  }

  lookup_entry-Grows :
      (s : StateMap F) (pid ticks : ℕ) (o : Option (PidState F))
      → Grows s 0 (lookup_entry s pid ticks o).1
  unfolding lookup_entry
  lookup_entry-Grows s pid ticks none = Grows-refl s
  lookup_entry-Grows s pid ticks (some st) = elim (Bool-cases (st.start_ticks == ticks)) [
    | inl same ↦ rw (same, lookup_entry) (Grows-refl s)
    | inr reused ↦ rw (reused, lookup_entry) (Grows-delete s pid)
  ]

  pub lookup_state-Grows : (s : StateMap F) (pid ticks : ℕ) → Grows s 0 (lookup_state s pid ticks).1
  unfolding lookup_state
  lookup_state-Grows s pid ticks = lookup_entry-Grows s pid ticks (lookup pid s.m)

  pub put-Grows : (s : StateMap F) (pid : ℕ) (st : PidState F) → Grows s 1 (put s pid st)
  unfolding put
  put-Grows s pid st = record {
    same_gen = refl;
    not_after = NotAfter-insert s.gen pid _ s.m (omega arith);
    more = omega (arith, stamped-insert-le s.gen pid (record st { generation = s.gen }) s.m);
  }

  touch_entry-Grows :
      (s : StateMap F) (pid : ℕ) (o : Option (PidState F)) → Grows s 1 (touch_entry s pid o)
  unfolding touch_entry put
  touch_entry-Grows s pid none = Grows-mono s s (Grows-refl s)
  touch_entry-Grows s pid (some st) = put-Grows s pid st

  pub touch-Grows : (s : StateMap F) (pid : ℕ) → Grows s 1 (touch s pid)
  unfolding touch
  touch-Grows s pid = touch_entry-Grows s pid (lookup pid s.m)

  pub next_generation-NotAfter :
      (s : StateMap F)
      → s.gen + 1 < u64_mod
      → NotAfter s.gen s.m
      → NotAfter (next_generation s).gen (next_generation s).m
        × (stamped (next_generation s).gen (next_generation s).m ≡ 0)
  unfolding next_generation
  next_generation-NotAfter s fits h =
      rw (add64-eq_of_lt s.gen 1 fits, add-one)
        (NotAfter-suc s.gen s.m h, stamped-NotAfter s.gen s.m h)

  pub prune_entries-stamped :
      (g : ℕ) (m : List (ℕ × PidState F))
      → NotAfter g m
      → length (prune_entries g m).0 ≡ stamped g m
  unfolding prune_entries
  prune_entries-stamped g [] h = refl
  prune_entries-stamped g ((pid, st) ∷ m) h = ground (arith, prune_entries-stamped g m h.1)

  prune_entries-current :
      (g : ℕ) (m : List (ℕ × PidState F))
      → NotAfter g m
      → All (λ e. e.1.generation ≡ g) (prune_entries g m).0
  unfolding prune_entries
  prune_entries-current g [] h = tt
  prune_entries-current g ((pid, st) ∷ m) h = ground (arith, prune_entries-current g m h.1)

  prune_entries-count :
      (g : ℕ) (m : List (ℕ × PidState F))
      → (prune_entries g m).1 + length (prune_entries g m).0 ≡ length m
  unfolding prune_entries
  prune_entries-count g [] = omega arith
  prune_entries-count g ((pid, st) ∷ m) = ground (arith, prune_entries-count g m)

  -- Prune leaves exactly the entries of the current generation, and reports how many it took away.
  pub prune_lem :
      (s : StateMap F)
      → NotAfter s.gen s.m
      → All (λ e. e.1.generation ≡ s.gen) (prune s).1.m
        × (len (prune s).1 ≡ stamped s.gen s.m)
        × ((prune s).0 + len (prune s).1 ≡ len s)
        × ((prune s).1.gen ≡ s.gen)
  unfolding prune len
  prune_lem s h = (
    prune_entries-current s.gen s.m h,
    prune_entries-stamped s.gen s.m h,
    prune_entries-count s.gen s.m,
    refl,
  )

  -- Prune keeps the invariant too.
  pub prune-NotAfter :
      (s : StateMap F) → NotAfter s.gen s.m → NotAfter (prune s).1.gen (prune s).1.m
  unfolding prune
  prune-NotAfter s h =
      current-NotAfter s.gen (prune_entries s.gen s.m).0 (prune_entries-current s.gen s.m h)
    where
      current-NotAfter :
          (g : ℕ) (m : List (ℕ × PidState F)) → All (λ e. e.1.generation ≡ g) m → NotAfter g m
      current-NotAfter g [] a = tt
      current-NotAfter g ((pid, st) ∷ m) a = (omega arith, current-NotAfter g m a.1)

  pub Grows-NotAfter :
      (n : ℕ) (s s' : StateMap F) → Grows s n s' → NotAfter s.gen s.m → NotAfter s'.gen s'.m
  Grows-NotAfter n s s' h a = subst (λ g. NotAfter g s'.m) (sym h.same_gen) (h.not_after a)

  -- A map that began with no entry of its generation, and grew by at most `n` of them, is pruned to at
  -- most `n` entries, all of that generation.
  pub prune_bound :
      (n : ℕ) (s s' : StateMap F)
      → Grows s n s'
      → NotAfter s.gen s.m
      → stamped s.gen s.m ≡ 0
      → (len (prune s').1 ≤ n) × All (λ e. e.1.generation ≡ (prune s').1.gen) (prune s').1.m
  prune_bound n s s' h a fresh =
      let pruned = prune_lem s' (Grows-NotAfter n s s' h a) in
      let few : stamped s'.gen s'.m ≤ n =
        subst (λ g. stamped g s'.m ≤ n) (sym h.same_gen) (omega (arith, h.more)) in
      (
        omega arith,
        subst (λ g. All (λ (e : ℕ × PidState F). e.1.generation ≡ g) (prune s').1.m) (sym pruned.3)
            pruned.0,
      )

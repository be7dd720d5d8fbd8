-- ===== src/Aggregate/Sums.antt =====
-- The figures of a group against sums over its members.
use cpu_process_exporter.Base.{
  ℕ, suc, ◌+◌, ◌<◌, ◌%◌, ◌≡◌, refl, sym, ap, ◌∙◌, Bool, true, ◌&&◌, List, [], ◌∷◌, none, some,
  lookup, nat_eq, insert, lookup-insert, if◌then◌else◌, ◌==◌, arith, add64, u64_mod, Bool-cases,
  inl, inr, count, ==_iff,
}
use cpu_process_exporter.Base.Int.{ℤ, pos, bits64, of_bits64, add_int, ltb_ℤ}
use cpu_process_exporter.Float.{Float64}
use cpu_process_exporter.Procfs.System.{System}
use cpu_process_exporter.Scan.State.{Process, or_zero}
use cpu_process_exporter.Aggregate.Types.{Key, key_eq, Sample}
use cpu_process_exporter.Aggregate.Apply.{new_sample, add_member, fold_groups}
use cpu_process_exporter.Aggregate.Groups.{members, add_members, has_fds, lookup-fold_groups}

bits64-of_bits64 : (n : ℕ) → n < u64_mod → bits64 (of_bits64 n) ≡ n
unfolding bits64 of_bits64
bits64-of_bits64 n h = ground arith

-- An int is added as the 64-bit word that it is.
bits64-add_int : (a b : ℤ) → bits64 (add_int a b) ≡ add64 (bits64 a) (bits64 b)
unfolding add_int add64
bits64-add_int a b = bits64-of_bits64 ((bits64 a + bits64 b) % u64_mod) (omega arith)

pub data Figure : Type 0 where
  rss vsize shared data_pages swap pss swap_pss threads open_fds max_fds : Figure

module _ {F : Type 0} where
  -- The figure of a sample as a 64-bit word.
  abbrev pub amount : Figure → Sample F → ℕ
  amount rss s = s.rss_bytes
  amount vsize s = s.vsize_bytes
  amount shared s = s.shared_bytes
  amount data_pages s = s.data_bytes
  amount swap s = s.swap_bytes
  amount pss s = s.pss_bytes
  amount swap_pss s = s.swap_pss_bytes
  amount threads s = bits64 s.threads
  amount open_fds s = bits64 s.open_fds
  amount max_fds s = bits64 s.max_fds

  abbrev size : Figure → Process F → ℕ
  size rss p = p.rss_bytes
  size vsize p = p.vsize_bytes
  size shared p = p.shared_bytes
  size data_pages p = p.data_bytes
  size swap p = p.swap_bytes
  size pss p = p.pss_bytes
  size swap_pss p = p.swap_pss_bytes
  size threads p = bits64 p.threads
  size open_fds p = bits64 p.open_fds
  size max_fds p = bits64 p.max_fds

module _ {F : Type 0} (fl : Float64 F) (sys : System F) where
  -- Whether the figure of a process is known.
  abbrev is_counted : Figure → Process F → Bool
  is_counted rss p = true
  is_counted vsize p = true
  is_counted shared p = true
  is_counted data_pages p = true
  is_counted swap p = true
  is_counted pss p = p.have_pss
  is_counted swap_pss p = p.have_pss
  is_counted threads p = true
  is_counted open_fds p = has_fds fl sys p
  is_counted max_fds p = has_fds fl sys p && ltb_ℤ (pos 0) p.max_fds

  -- The sum of the known figures.
  abbrev pub sum : Figure → List (Process F) → ℕ
  sum f [] = 0
  sum f (p ∷ ps) = (if is_counted f p then size f p else 0) + sum f ps

  add_member-amount :
      (f : Figure) (p : Process F) (s : Sample F)
      → amount f (add_member fl sys p s)
        ≡ (if is_counted f p then add64 (amount f s) (size f p) else amount f s)
  unfolding add_member
  add_member-amount rss p s = ground arith
  add_member-amount vsize p s = ground arith
  add_member-amount shared p s = ground arith
  add_member-amount data_pages p s = ground arith
  add_member-amount swap p s = ground arith
  add_member-amount pss p s = ground arith
  add_member-amount swap_pss p s = ground arith
  add_member-amount threads p s = ground (arith, bits64-add_int s.threads p.threads)
  add_member-amount open_fds p s = ground (arith, bits64-add_int s.open_fds p.open_fds)
  add_member-amount max_fds p s = ground (arith, bits64-add_int s.max_fds p.max_fds)

  -- One member more, where the figure is a word.
  add_member-word :
      (f : Figure) (p : Process F) (s : Sample F)
      → amount f s < u64_mod
      → amount f (add_member fl sys p s)
        ≡ (amount f s + (if is_counted f p then size f p else 0)) % u64_mod
  unfolding add64
  add_member-word f p s word = add_member-amount f p s ∙ elim (Bool-cases (is_counted f p)) [
    | inl known ↦ rw known refl
    | inr known ↦ rw known (omega (arith, word))
  ]

  add_member-states :
      (p : Process F) (s : Sample F)
      → (add_member fl sys p s).states
        ≡ insert p.state (suc (or_zero (lookup p.state s.states))) s.states
  unfolding add_member
  add_member-states p s = ground arith

  add_member-state :
      (st : ℕ) (p : Process F) (s : Sample F)
      → or_zero (lookup st (add_member fl sys p s).states) ≡ (
          if p.state == st
          then suc (or_zero (lookup st s.states))
          else or_zero (lookup st s.states))
  add_member-state st p s =
      ap (λ m. or_zero (lookup st m)) (add_member-states p s)
      ∙ ap or_zero (lookup-insert p.state st (suc (or_zero (lookup p.state s.states))) s.states)
      ∙ elim (Bool-cases (p.state == st)) [
        | inl here ↦
            rw here (ap (λ n. suc (or_zero (lookup n s.states))) ((==_iff p.state st).0 here))
        | inr other ↦ rw other refl
      ]

  add_members-sums :
      (f : Figure) (st : ℕ) (s s' : Sample F) (ps : List (Process F))
      → amount f s < u64_mod
      → add_members fl sys (some s) ps ≡ some s'
      → (amount f s' ≡ (amount f s + sum f ps) % u64_mod)
        × (or_zero (lookup st s'.states)
            ≡ or_zero (lookup st s.states) + count (λ p. p.state == st) ps)
  add_members-sums f st s s' [] word h =
      let same : s' ≡ s = cc in
      (
        ap (amount f) same ∙ omega (arith, word),
        ap (λ (x : Sample F). or_zero (lookup st x.states)) same ∙ omega arith,
      )
  add_members-sums f st s s' (p ∷ ps) word h =
      let one = add_member-word f p s word in
      let (amounts, states) =
        add_members-sums f st (add_member fl sys p s) s' ps (omega (arith, one)) h in
      (omega (arith, one, amounts), ground (arith, states, add_member-state st p s))

  new_sample-amount : (f : Figure) (p : Process F) → amount f (new_sample fl sys p) ≡ 0
  unfolding bits64
  new_sample-amount rss p = refl
  new_sample-amount vsize p = refl
  new_sample-amount shared p = refl
  new_sample-amount data_pages p = refl
  new_sample-amount swap p = refl
  new_sample-amount pss p = refl
  new_sample-amount swap_pss p = refl
  new_sample-amount threads p = refl
  new_sample-amount open_fds p = refl
  new_sample-amount max_fds p = refl

  from_none-sums :
      (f : Figure) (st : ℕ) (s : Sample F) (ps : List (Process F))
      → add_members fl sys none ps ≡ some s
      → (amount f s ≡ sum f ps % u64_mod)
        × (or_zero (lookup st s.states) ≡ count (λ p. p.state == st) ps)
  unfolding lookup
  from_none-sums f st s [] h = cc
  from_none-sums f st s (p ∷ ps) h =
      let start = new_sample-amount f p in
      let (amounts, states) =
        add_members-sums f st (new_sample fl sys p) s (p ∷ ps) (omega (arith, start)) h in
      (omega (arith, start, amounts), omega (arith, states))

  -- Of the sample that the loop of Apply makes for a group, each memory figure, the threads, the open
  -- descriptors and their limits, as 64-bit words, are the sum modulo 2^64 over the processes of the
  -- group for which the figure is known; and the sample counts for each state letter the processes of
  -- the group in that state.
  pub group_sums :
      (k : Key) (ps : List (Process F)) (s : Sample F) (f : Figure) (st : ℕ)
      → lookup k (fold_groups fl sys [] ps) ≡ some s
      → (amount f s ≡ sum f (members k ps) % u64_mod)
        × (or_zero (lookup st s.states) ≡ count (λ p. p.state == st) (members k ps))
  unfolding lookup
  group_sums k ps s f st h =
      from_none-sums f st s (members k ps) (sym (lookup-fold_groups fl sys k [] ps) ∙ h)

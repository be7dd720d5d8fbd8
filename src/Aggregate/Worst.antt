-- ===== src/Aggregate/Worst.antt =====
-- The worst descriptor ratio of a group.
use cpu_process_exporter.Base.{
  ◌≡◌, sym, subst, ◌∙◌, Bool, true, false, ◌&&◌, List, [], ◌∷◌, none, some, lookup, All, arith,
  if◌then◌else◌,
}
use cpu_process_exporter.Float.{Float64, OrderLaws}
use cpu_process_exporter.Procfs.System.{System}
use cpu_process_exporter.Scan.State.{Process}
use cpu_process_exporter.Aggregate.Types.{Key, key_eq, Sample}
use cpu_process_exporter.Aggregate.Apply.{new_sample, add_member, fold_groups}
use cpu_process_exporter.Aggregate.Groups.{members, add_members, has_fds, lookup-fold_groups}

module _ {F : Type 0} (fl : Float64 F) (sys : System F) (laws : OrderLaws fl) where
  add_member-worst :
      (p : Process F) (s : Sample F)
      → (add_member fl sys p s).worst_fd_ratio ≡ (
          if has_fds fl sys p && fl.ltb_f s.worst_fd_ratio p.fd_ratio
          then p.fd_ratio
          else s.worst_fd_ratio)
  unfolding add_member
  add_member-worst p s = ground arith

  -- `b` is not below `a`.
  abbrev NotBelow : F → F → Type 0
  NotBelow a b = fl.ltb_f b a ≡ false

  pick-NotBelow :
      (known : Bool) (a b : F)
      → NotBelow a (if known && fl.ltb_f a b then b else a)
        × (known ≡ true → NotBelow b (if known && fl.ltb_f a b then b else a))
  pick-NotBelow known a b = ground (arith, laws.ltb_irrefl a, laws.ltb_irrefl b, laws.ltb_asym a b)

  add_members-worst :
      (s : Sample F) (ps : List (Process F)) {s' : Sample F}
      → add_members fl sys (some s) ps ≡ some s'
      → NotBelow s.worst_fd_ratio s'.worst_fd_ratio
        × All (λ p. has_fds fl sys p ≡ true → NotBelow p.fd_ratio s'.worst_fd_ratio) ps
  add_members-worst s [] h = (ground (arith, laws.ltb_irrefl s.worst_fd_ratio), tt)
  add_members-worst s (p ∷ ps) h =
      let (grown, covers) = add_members-worst (add_member fl sys p s) ps h in
      let picked = pick-NotBelow (has_fds fl sys p) s.worst_fd_ratio p.fd_ratio in
      let worst = add_member-worst p s in
      (
        laws.ltb_trans _ _ _ (subst (NotBelow s.worst_fd_ratio) (sym worst) picked.0) grown,
        (
          λ known.
              laws.ltb_trans _ _ _ (subst (NotBelow p.fd_ratio) (sym worst) (picked.1 known)) grown,
          covers,
        ),
      )

  from_none :
      (ps : List (Process F)) {s : Sample F}
      → add_members fl sys none ps ≡ some s
      → All (λ p. has_fds fl sys p ≡ true → NotBelow p.fd_ratio s.worst_fd_ratio) ps
  from_none [] h = tt
  from_none (p ∷ ps) h = (add_members-worst (new_sample fl sys p) (p ∷ ps) h).1

  -- Where `<` on the ratios is a strict weak order, the worst ratio of a group is not below that of any
  -- process of the group whose descriptors are known.
  pub worst_covers :
      (k : Key) (ps : List (Process F)) (s : Sample F)
      → lookup k (fold_groups fl sys [] ps) ≡ some s
      → All
          (λ p. has_fds fl sys p ≡ true → fl.ltb_f s.worst_fd_ratio p.fd_ratio ≡ false)
          (members k ps)
  unfolding lookup
  worst_covers k ps s h = from_none (members k ps) (sym (lookup-fold_groups fl sys k [] ps) ∙ h)

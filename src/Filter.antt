-- ===== src/Filter.antt =====
-- internal/filter/filter.go: which processes are exported.
pub mod Decision
pub mod Cost
pub mod Compile
use cpu_process_exporter.Base.{
  ℕ, suc, ◌+◌, Bool, true, false, not, ◌&&◌, ◌||◌, List, [], ◌∷◌, Option, none, some, Bytes, codes,
  is_empty, eqb, has_prefix, join, if◌then◌else◌, any, length, ◌==◌,
}
use cpu_process_exporter.Base.Int.{ℤ, pos, eqb_ℤ}
use cpu_process_exporter.Config.{FilterConfig, items, is_nil, needs_cmdline}
use cpu_process_exporter.Regexp.{Regexp}

-- The maps `ignoreComm` and `ignoreUsers` are sets: their keys all carry true.
pub record Filter (R : Type 0) : Type 0 where
  pub ignore_kernel : Bool
  pub ignore_comm : List Bytes
  pub ignore_prefix : List Bytes
  pub ignore_regex : List R
  pub ignore_cmd : List R
  pub ignore_users : List Bytes
  pub include_only : List R
  pub needs_cmdline : Bool

pub record Input : Type 0 where
  pub comm : Bytes
  pub cmdline : List Bytes
  pub user : Bytes
  pub ppid : ℤ
  pub is_kernel : Bool

-- Why New fails: the list, and the index of the pattern that does not compile.
pub data PatternError : Type 0 where
  ignore_comm_regex ignore_cmdline_regex include_only : ℕ → PatternError

pub data NewResult {ℓ} (A : Type ℓ) : Type ℓ where
  ok : A → NewResult A
  err : PatternError → NewResult A

infixl 5 ◌>>=◌
abbrev pub ◌>>=◌ {ℓ κ} : {A : Type ℓ} {B : Type κ} → NewResult A → (A → NewResult B) → NewResult B
ok a >>= f = f a
err e >>= f = err e

abbrev pub contains : List Bytes → Bytes → Bool
contains xs s = any (λ x. eqb x s) xs

abbrev pub reason_include_only : Bytes
reason_include_only = codes "include_only"

abbrev pub reason_kernel : Bytes
reason_kernel = codes "kernel_thread"

abbrev pub reason_comm : Bytes
reason_comm = codes "ignore_comm"

abbrev pub reason_prefix : Bytes
reason_prefix = codes "ignore_comm_prefix"

abbrev pub reason_regex : Bytes
reason_regex = codes "ignore_comm_regex"

abbrev pub reason_cmdline : Bytes
reason_cmdline = codes "ignore_cmdline_regex"

abbrev pub reason_users : Bytes
reason_users = codes "ignore_users"

module _ {R M : Type 0} (rx : Regexp R M) where
  -- One of the three loops of New: the patterns compiled in order, from index `i`.
  unfoldable pub compile_all : (ℕ → PatternError) → ℕ → List Bytes → NewResult (List R)
  compile_all error i [] = ok []
  compile_all error i (p ∷ ps) = elim (rx.compile p) [
    | none ↦ err (error i)
    | some re ↦ compile_all error (suc i) ps >>= λ res. ok (re ∷ res)
  ]

  unfoldable pub new : FilterConfig → NewResult (Filter R)
  unfolding compile_all
  new cfg = do
    ignore_regex ← compile_all ignore_comm_regex 0 (items cfg.ignore_comm_regex)
    ignore_cmd ← compile_all ignore_cmdline_regex 0 (items cfg.ignore_cmdline_regex)
    included ← compile_all include_only 0 (items cfg.include_only)
    ok (record {
      ignore_kernel = cfg.ignore_kernel_threads;
      ignore_comm = items cfg.ignore_comm;
      ignore_prefix = items cfg.ignore_comm_prefix;
      ignore_regex = ignore_regex;
      ignore_cmd = ignore_cmd;
      ignore_users = items cfg.ignore_users;
      include_only = included;
      needs_cmdline = needs_cmdline cfg;
    })

  -- The command line in one text, or comm where there is none.
  abbrev pub joined : Input → Bytes
  joined i = if is_nil i.cmdline then i.comm else join b' ' i.cmdline

  abbrev pub included : Filter R → Input → Bool
  included f i =
      any (λ re. rx.match_string re i.comm || rx.match_string re (joined i)) f.include_only

  -- Whether the process is exported, and if not, by which rule.
  unfoldable pub keep : Filter R → Input → Bool × Bytes
  keep f i =
      if not (is_nil f.include_only) && not (included f i)
      then (false, reason_include_only)
      else if f.ignore_kernel && i.is_kernel
      then (false, reason_kernel)
      else if contains f.ignore_comm i.comm
      then (false, reason_comm)
      else if any (λ p. has_prefix i.comm p) f.ignore_prefix
      then (false, reason_prefix)
      else if any (λ re. rx.match_string re i.comm) f.ignore_regex
      then (false, reason_regex)
      else if not (is_nil f.ignore_cmd)
          && not (is_nil i.cmdline)
          && any (λ re. rx.match_string re (join b' ' i.cmdline)) f.ignore_cmd
      then (false, reason_cmdline)
      else if not (is_empty i.user) && contains f.ignore_users i.user
      then (false, reason_users)
      else (true, [])

unfoldable pub is_kernel_thread : List Bytes → ℤ → Bool
is_kernel_thread cmdline ppid = is_nil cmdline || eqb_ℤ ppid (pos 2)

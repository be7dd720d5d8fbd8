-- ===== src/Procfs/Cmdline.antt =====
-- internal/procfs/cmdline.go: the arguments, and the target of the exe link.
use cpu_process_exporter.Base.{
  ℕ, zero, suc, List, [], ◌∷◌, Option, none, some, Bytes, codes, has_prefix, ◌==◌, if◌then◌else◌,
  is_empty, trim_right, take,
}
use mathlib.Core.Option
use cpu_process_exporter.Procfs.Error.{Result, ok, ◌>>=◌}
use cpu_process_exporter.Procfs.World.{World, cmdline}

abbrev prepend : ℕ → List Bytes → List Bytes
prepend c [] = (c ∷ []) ∷ []
prepend c (w ∷ ws) = (c ∷ w) ∷ ws

-- strings.Split by one byte: n separators give n + 1 parts.
unfoldable pub split : ℕ → Bytes → List Bytes
split sep [] = [] ∷ []
split sep (c ∷ s) = let parts = split sep s in if c == sep then [] ∷ parts else prepend c parts

unfoldable pub non_empty : List Bytes → List Bytes
non_empty [] = []
non_empty (p ∷ ps) = if is_empty p then non_empty ps else p ∷ non_empty ps

unfoldable pub parse_cmdline : Bytes → List Bytes
unfolding split non_empty trim_right
parse_cmdline text =
    let s = trim_right (λ c. c == 0) text in
    if is_empty text then [] else if is_empty s then [] else non_empty (split 0 s)

unfoldable pub read_cmdline : World → ℕ → Result (List Bytes)
read_cmdline w pid = w.read_file pid cmdline >>= λ text. ok (parse_cmdline text)

-- strings.Index
unfoldable pub index : Bytes → Bytes → Option ℕ
index sub [] = if is_empty sub then some 0 else none
index sub (c ∷ s) =
    let later = index sub s in if has_prefix (c ∷ s) sub then some 0 else Option.map suc later

-- `target[:i]` where " (deleted)" stands at i > 0.
abbrev pub cut_deleted : Bytes → Option ℕ → Bytes
cut_deleted target none = target
cut_deleted target (some zero) = target
cut_deleted target (some (suc i)) = take (suc i) target

unfoldable pub read_exe : World → ℕ → Result Bytes
unfolding index
read_exe w pid =
    w.read_exe_link pid >>= λ target. ok (cut_deleted target (index (codes " (deleted)") target))

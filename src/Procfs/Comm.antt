-- ===== src/Procfs/Comm.antt =====
-- parseStat against the line that the kernel writes: the name of the process stands in parentheses and
-- may hold spaces and parentheses itself.
use native.Mathlib.Nat.{suc-add}
use cpu_process_exporter.Base.{
  ℕ, ◌+◌, ◌≤◌, ◌≡◌, ◌≢◌, refl, sym, ap, append_assoc, ◌∙◌, true, [], ◌∷◌, ◌++◌, none, some, Bytes,
  All, length, length-append, take, drop, arith,
}
use cpu_process_exporter.Base.Int.{ℤ}
use cpu_process_exporter.Procfs.Error.{ok}
use cpu_process_exporter.Procfs.Number.{atoi, trim_space, fields, index_byte, last_index_byte}
use cpu_process_exporter.Procfs.Stat.{stat_of_fields, parse_stat_at, parse_stat}

-- The byte does not occur in the text.
abbrev pub Lacks : ℕ → Bytes → Type 0
Lacks b s = All (λ c. c ≢ b) s

index_byte-append :
    (b : ℕ) (s t : Bytes) → Lacks b s → index_byte b (s ++ (b ∷ t)) ≡ some (length s)
unfolding index_byte
index_byte-append b [] t h = ground arith
index_byte-append b (c ∷ s) t h = ground (arith, index_byte-append b s t h.1)

last_index_byte-none : (b : ℕ) (t : Bytes) → Lacks b t → last_index_byte b t ≡ none
unfolding last_index_byte
last_index_byte-none b [] h = refl
last_index_byte-none b (c ∷ t) h = ground (arith, last_index_byte-none b t h.1)

last_index_byte-append :
    (b : ℕ) (s t : Bytes) → Lacks b t → last_index_byte b (s ++ (b ∷ t)) ≡ some (length s)
unfolding last_index_byte
last_index_byte-append b [] t h = ground (arith, last_index_byte-none b t h)
last_index_byte-append b (c ∷ s) t h = ground (arith, last_index_byte-append b s t h)

take-length : (s t : Bytes) → take (length s) (s ++ t) ≡ s
take-length [] t = refl
take-length (c ∷ s) t = ap (◌∷◌ c) (take-length s t)

drop-length : (s t : Bytes) → drop (length s) (s ++ t) ≡ t
drop-length [] t = refl
drop-length (c ∷ s) t = drop-length s t

drop-past : (s : Bytes) (c : ℕ) (t : Bytes) → drop (length s + 1) (s ++ (c ∷ t)) ≡ t
drop-past [] c t = refl
drop-past (d ∷ s) c t = rw suc-add (drop-past s c t)

module _ (before comm rest : Bytes) where
  -- The line: what stands before the name, the name, and what follows it.
  abbrev pub stat_line : Bytes
  stat_line = before ++ (b'(' ∷ comm ++ (b')' ∷ rest))

  abbrev close_at : ℕ
  close_at = length before + 1 + length comm

  split_at_close : stat_line ≡ (before ++ (b'(' ∷ comm)) ++ (b')' ∷ rest)
  split_at_close = sym (append_assoc before (b'(' ∷ comm) (b')' ∷ rest))

  length_head : length (before ++ (b'(' ∷ comm)) ≡ close_at
  length_head = omega (arith, length-append before (b'(' ∷ comm))

  found_close : Lacks b')' rest → last_index_byte b')' stat_line ≡ some close_at
  found_close h =
      ap (last_index_byte b')') split_at_close
      ∙ last_index_byte-append b')' (before ++ (b'(' ∷ comm)) rest h
      ∙ ap some length_head

  drop-close : drop (close_at + 1) stat_line ≡ rest
  drop-close =
      ap (drop (close_at + 1)) split_at_close
      ∙ ap (λ n. drop (n + 1) ((before ++ (b'(' ∷ comm)) ++ (b')' ∷ rest))) (sym length_head)
      ∙ drop-past (before ++ (b'(' ∷ comm)) b')' rest

  drop-open : drop (length before + 1) stat_line ≡ comm ++ (b')' ∷ rest)
  drop-open = drop-past before b'(' (comm ++ (b')' ∷ rest))

  -- The name is recovered whatever bytes it holds, parentheses included: where the text before it has
  -- no opening parenthesis and is a number, and the text behind it has no closing parenthesis and at
  -- least twenty fields, parseStat returns that number, the name, and the figures of those fields.
  pub parse_stat-stat_line :
      (pid : ℤ)
      → Lacks b'(' before
      → Lacks b')' rest
      → atoi (trim_space before) ≡ (pid, true)
      → 20 ≤ length (fields rest)
      → parse_stat stat_line ≡ ok (stat_of_fields pid comm (fields rest))
  unfolding parse_stat parse_stat_at
  parse_stat-stat_line pid no_open no_close number enough =
      rw (index_byte-append b'(' before (comm ++ (b')' ∷ rest)) no_open, found_close no_close)
        (ground (
          arith,
          take-length before (b'(' ∷ comm ++ (b')' ∷ rest)),
          drop-close,
          drop-open,
          take-length comm (b')' ∷ rest),
        ))

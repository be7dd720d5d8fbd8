-- ===== src/Regexp.antt =====
-- The package regexp, which the program calls and does not contain: a type of compiled patterns and
-- of matches, with the functions that the program uses.
use cpu_process_exporter.Base.{Bool, Option, Bytes}

pub record Regexp (R : Type 0) (M : Type 0) : Type 0 where
  -- Compile; none is its error
  pub compile : Bytes → Option R
  pub match_string : R → Bytes → Bool
  -- FindStringSubmatchIndex; none is nil
  pub find_submatch : R → Bytes → Option M
  -- ExpandString(nil, template, text, m)
  pub expand : R → Bytes → Bytes → M → Bytes

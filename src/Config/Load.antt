-- ===== src/Config/Load.antt =====
-- internal/config/load.go: Parse, normalise and Validate. `Files` is what a load asks of the operating
-- system and of the decoders: os.ReadFile, os.Stat of a path, and json.Unmarshal and yaml.Unmarshal
-- onto a configuration that holds the defaults. Of strings.EqualFold the ASCII letters are modelled.
use cpu_process_exporter.Base.{
  ℕ, suc, ◌+◌, ◌*◌, ◌/◌, ◌%◌, Bool, true, false, not, ◌&&◌, List, [], ◌∷◌, ◌++◌, map, Option, none,
  some, Bytes, codes, eqb, is_empty, has_prefix, if◌then◌else◌, leb, ◌==◌, any, is_some, u64_mod,
}
use cpu_process_exporter.Base.Int.{ℤ, pos, pos_part, ltb_ℤ, bits64, of_bits64}
use cpu_process_exporter.Config.{ScanConfig, FilterConfig, NamingRule, NamingConfig, Config, items}
use cpu_process_exporter.Config.Defaults.{
  default_ignore_comm, default_ignore_comm_prefix, default_ignore_comm_regex, default_naming_rules,
  second, default,
}
use cpu_process_exporter.Regexp.{Regexp}

-- What os.Stat says of a path.
pub data PathInfo : Type 0 where
  unreadable no_directory directory : PathInfo

pub record Files : Type 0 where
  pub read_file : Bytes → Option Bytes
  pub stat_path : Bytes → PathInfo
  pub decode_json : Bytes → Config → Option Config
  pub decode_yaml : Bytes → Config → Option Config

-- The errors that Validate joins; a number is the index that the message names.
pub data Problem : Type 0 where
  interval_small batch_small batch_large sleep_negative sleep_long fd_every_small : Problem
  smaps_every_small retention_negative proc_path_empty proc_path_unreadable proc_path_no_directory :
      Problem
  scan_too_long bad_fallback listen_empty bad_metrics_path bad_level bad_format : Problem
  bad_comm_regex bad_cmdline_regex bad_include_only no_match no_name bad_from : ℕ → Problem
  bad_match_comm_regex bad_match_exe_regex bad_regex no_group : ℕ → Problem

pub data LoadError : Type 0 where
  no_file no_parse : LoadError
  invalid : List Problem → LoadError

pub data Loaded : Type 0 where
  ok : Config → Loaded
  err : LoadError → Loaded

abbrev pub or_default {ℓ} : {A : Type ℓ} → Option (List A) → List A → Option (List A)
or_default none ds = some ds
or_default (some xs) ds = some xs

abbrev pub text_or : Bytes → Bytes → Bytes
text_or [] d = d
text_or (c ∷ s) d = c ∷ s

abbrev pub with_from : NamingRule → NamingRule
with_from r = record r { from = text_or r.from (codes "cmdline") }

abbrev pub with_froms : Option (List NamingRule) → Option (List NamingRule)
with_froms none = none
with_froms (some rs) = some (map with_from rs)

unfoldable pub normalise : Config → Config
normalise c = record c {
  scan = record (c.scan) { proc_path = text_or c.scan.proc_path (codes "/proc") };
  filter = record (c.filter) {
    ignore_comm = or_default c.filter.ignore_comm default_ignore_comm;
    ignore_comm_prefix = or_default c.filter.ignore_comm_prefix default_ignore_comm_prefix;
    ignore_comm_regex = or_default c.filter.ignore_comm_regex default_ignore_comm_regex;
  };
  naming = record (c.naming) {
    fallback = text_or c.naming.fallback (codes "comm");
    rules = with_froms (or_default c.naming.rules default_naming_rules);
  };
  server = record (c.server) { metrics_path = text_or c.server.metrics_path (codes "/metrics") };
}

-- `if test { add(problem) }`
abbrev pub check : Bool → Problem → List Problem
check true p = p ∷ []
check false p = []

-- A product of an int and a Duration, on int64.
unfoldable pub mul_duration : ℕ → ℤ → ℤ
unfolding bits64 of_bits64
mul_duration n d = of_bits64 ((n * bits64 d) % u64_mod)

-- About how long the sleeps of a scan of 2000 processes take.
abbrev pub estimate : ScanConfig → ℤ
estimate s = mul_duration (2000 / pos_part s.batch_size) s.batch_sleep

abbrev pub one_of : List Bytes → Bytes → Bool
one_of texts s = any (eqb s) texts

unfoldable pub check_path : Bytes → PathInfo → List Problem
check_path path info = if is_empty path then proc_path_empty ∷ [] else elim info [
  | unreadable ↦ proc_path_unreadable ∷ []
  | no_directory ↦ proc_path_no_directory ∷ []
  | directory ↦ []
]

unfoldable pub check_scan : (Bytes → PathInfo) → ScanConfig → List Problem
unfolding check_path
check_scan stat_path s =
    check (ltb_ℤ s.interval (pos second)) interval_small
    ++ (check (ltb_ℤ s.batch_size (pos 1)) batch_small
        ++ (check (ltb_ℤ (pos 10000) s.batch_size) batch_large
            ++ (check (ltb_ℤ s.batch_sleep (pos 0)) sleep_negative
                ++ (check (ltb_ℤ (pos second) s.batch_sleep) sleep_long
                    ++ (check (ltb_ℤ s.fd_scan_every (pos 1)) fd_every_small
                        ++ (check (ltb_ℤ s.smaps_scan_every (pos 1)) smaps_every_small
                            ++ (check (ltb_ℤ s.group_retention (pos 0)) retention_negative
                                ++ (check_path s.proc_path (stat_path s.proc_path)
                                    ++ check
                                        (ltb_ℤ (pos 0) s.batch_size
                                          && ltb_ℤ s.interval (estimate s))
                                        scan_too_long))))))))

-- `!hasMatch` of a rule, and the default case of the switch on its `from`.
abbrev pub matches_nothing : NamingRule → Bool
matches_nothing r =
    is_empty r.match_comm
    && is_empty r.match_comm_prefix
    && is_empty r.match_comm_regex
    && is_empty r.match_exe_regex

abbrev pub unknown_from : NamingRule → Bool
unknown_from r = not (one_of (codes "comm" ∷ codes "exe" ∷ codes "cmdline" ∷ [] ∷ []) r.from)

module _ {R M : Type 0} (rx : Regexp R M) where
  abbrev pub compiles : Bytes → Bool
  compiles p = is_some (rx.compile p)

  unfoldable pub check_patterns : (ℕ → Problem) → ℕ → List Bytes → List Problem
  check_patterns problem i [] = []
  check_patterns problem i (p ∷ ps) =
      check (not (compiles p)) (problem i) ++ check_patterns problem (suc i) ps

  unfoldable pub check_filter : FilterConfig → List Problem
  unfolding check_patterns
  check_filter f =
      check_patterns bad_comm_regex 0 (items f.ignore_comm_regex)
      ++ (check_patterns bad_cmdline_regex 0 (items f.ignore_cmdline_regex)
          ++ check_patterns bad_include_only 0 (items f.include_only))

  -- A pattern that is not empty has to compile.
  abbrev pub check_field : Bytes → Problem → List Problem
  check_field p problem = check (not (is_empty p) && not (compiles p)) problem

  unfoldable pub check_rule : ℕ → NamingRule → List Problem
  check_rule i r =
      check (matches_nothing r) (no_match i)
      ++ (check (is_empty r.name) (no_name i)
          ++ (check (unknown_from r) (bad_from i)
              ++ (check_field r.match_comm_regex (bad_match_comm_regex i)
                  ++ (check_field r.match_exe_regex (bad_match_exe_regex i)
                      ++ (check_field r.regex (bad_regex i)
                          ++ check (is_empty r.regex && any (λ c. c == b'$') r.name)
                              (no_group i))))))

  unfoldable pub check_rules : ℕ → List NamingRule → List Problem
  unfolding check_rule
  check_rules i [] = []
  check_rules i (r ∷ rs) = check_rule i r ++ check_rules (suc i) rs

  unfoldable pub check_naming : NamingConfig → List Problem
  unfolding check_rules
  check_naming n =
      check
        (not
          (one_of (codes "comm" ∷ codes "exe_basename" ∷ codes "cmdline_basename" ∷ []) n.fallback))
        bad_fallback
      ++ check_rules 0 (items n.rules)

  -- All the problems; the joined error is nil where there is none.
  unfoldable pub validate : (Bytes → PathInfo) → Config → List Problem
  unfolding check_scan check_filter check_naming
  validate stat_path c =
      check_scan stat_path c.scan
      ++ (check_filter c.filter
          ++ (check_naming c.naming
              ++ (check (is_empty c.server.listen) listen_empty
                  ++ (check (not (has_prefix c.server.metrics_path (codes "/"))) bad_metrics_path
                      ++ (check
                            (not (
                              one_of
                                (codes "debug" ∷ codes "info" ∷ codes "warn" ∷ codes "error" ∷ [])
                                c.log.level))
                            bad_level
                          ++ check (not (one_of (codes "json" ∷ codes "text" ∷ []) c.log.format))
                              bad_format)))))

  abbrev pub accept : Config → List Problem → Loaded
  accept c [] = ok c
  accept c (p ∷ ps) = err (invalid (p ∷ ps))

  abbrev pub parsed : Files → Option Config → Loaded
  parsed fs none = err no_parse
  parsed fs (some c) = accept (normalise c) (validate fs.stat_path (normalise c))

  unfoldable pub parse : Files → Bytes → Bool → Loaded
  parse fs text is_json =
      parsed fs (if is_json then fs.decode_json text default else fs.decode_yaml text default)

-- filepath.Ext: from the last dot behind the last slash.
unfoldable pub ext_of : Bytes → Bytes → Bytes
ext_of found [] = found
ext_of found (c ∷ s) = ext_of (if c == b'/' then [] else if c == b'.' then c ∷ s else found) s

unfoldable pub lower : ℕ → ℕ
lower c = if leb b'A' c && leb c b'Z' then c + 32 else c

unfoldable pub is_json_path : Bytes → Bool
unfolding ext_of lower
is_json_path path = eqb (map lower (ext_of [] path)) (codes ".json")

abbrev pub read_text : {R M : Type 0} → Regexp R M → Files → Bytes → Option Bytes → Loaded
read_text rx fs path none = err no_file
read_text rx fs path (some text) = parse rx fs text (is_json_path path)

unfoldable pub load : {R M : Type 0} → Regexp R M → Files → Bytes → Loaded
unfolding parse is_json_path
load rx fs path = read_text rx fs path (fs.read_file path)

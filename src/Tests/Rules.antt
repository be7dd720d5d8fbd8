-- ===== src/Tests/Rules.antt =====
-- The theorems of the filter and of the namer at concrete configurations.
use cpu_process_exporter.Tests.{prefixes, filter_config, by_comm}
use cpu_process_exporter.Base.{none, some, eqb, ◌≡◌, ◌↔◌, refl, true, false, [], ◌∷◌, Bytes, codes}
use cpu_process_exporter.Base.Int.{pos}
use cpu_process_exporter.Config.{needs_cmdline}
use cpu_process_exporter.Filter.{Filter, Input, ok, ignore_comm_regex, compile_all, new, keep}
use cpu_process_exporter.Filter.Decision.{IsExported, keep_iff}
use cpu_process_exporter.Filter.Cost.{keep_without_cmdline}
use cpu_process_exporter.Filter.Compile.{Meaning, compile_all_lem}
use cpu_process_exporter.Namer
use cpu_process_exporter.Namer.Rules.{name_first}
use cpu_process_exporter.Namer.Labels.{IsLabel, name-IsLabel}
use cpu_process_exporter.Namer.Sanitize.{sanitize}

abbrev filter : Filter Bytes
filter = record {
  ignore_kernel = false;
  ignore_comm = [];
  ignore_prefix = codes "kw" ∷ [];
  ignore_regex = [];
  ignore_cmd = [];
  ignore_users = [];
  include_only = [];
  needs_cmdline = false;
}

abbrev shell : Input
shell = record {
  comm = codes "sh";
  cmdline = [];
  user = codes "root";
  ppid = pos 1;
  is_kernel = false;
}

filter_is : new prefixes filter_config ≡ ok filter
unfolding new needs_cmdline
filter_is = refl

cheap : needs_cmdline filter_config ≡ false
unfolding needs_cmdline
cheap = refl

keep_iff_example : ((keep prefixes filter shell).0 ≡ true) ↔ IsExported prefixes filter shell
keep_iff_example = keep_iff prefixes filter shell

keep_without_cmdline_example :
    keep prefixes filter (record shell { cmdline = codes "sh" ∷ []; is_kernel = true })
    ≡ keep prefixes filter shell
keep_without_cmdline_example =
    keep_without_cmdline prefixes filter_config filter filter_is cheap shell (codes "sh" ∷ []) true

compile_all_lem_example :
    Meaning prefixes ignore_comm_regex 0
      (codes "a" ∷ codes "b" ∷ [])
      (compile_all prefixes ignore_comm_regex 0 (codes "a" ∷ codes "b" ∷ []))
compile_all_lem_example = compile_all_lem prefixes ignore_comm_regex 0 (codes "a" ∷ codes "b" ∷ [])

abbrev worker : Namer.Input
worker = record { comm = codes "_worker 1"; exe = []; cmdline = [] }

name-IsLabel_example :
    IsLabel (Namer.name prefixes by_comm worker)
    × (sanitize (Namer.name prefixes by_comm worker) ≡ Namer.name prefixes by_comm worker)
name-IsLabel_example = name-IsLabel prefixes by_comm worker

-- One rule for the comm "db", and one for every process.
abbrev for_db : Namer.CompiledRule Bytes
for_db = record {
  match_comm = codes "db";
  match_comm_prefix = [];
  match_comm_regex = none;
  match_exe_regex = none;
  from = codes "comm";
  extract = none;
  template = codes "database";
}

abbrev for_all : Namer.CompiledRule Bytes
for_all = record for_db { match_comm = []; template = codes "all" }

passed_db : Namer.try_rule prefixes for_db worker ≡ none
unfolding Namer.try_rule Namer.matches eqb
passed_db = refl

found_all : Namer.try_rule prefixes for_all worker ≡ some (codes "all")
unfolding Namer.try_rule Namer.matches Namer.apply_rule eqb
found_all = refl

name_first_example :
    Namer.name prefixes (record { rules = for_db ∷ for_all ∷ []; fallback = codes "comm" }) worker
    ≡ sanitize (codes "all")
name_first_example =
    name_first prefixes worker (for_db ∷ []) [] for_all (codes "all") (codes "comm") (passed_db, tt)
      found_all
